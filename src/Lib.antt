-- ===== src/Lib.antt =====
-- ENOVA deploys one large language model at a time behind an HTTP service, tests it with traffic,
-- and recommends and repairs its configuration. This library models the parts that carry that logic.
--
-- The parts, and the files that model them:
--
--   * Value: Python values as they stand in dicts, JSON columns and request bodies; a dict is the
--     list of its entries in their order.
--   * Constant: enova/common/constant.py, each enumeration a type with a record of its values.
--   * Error: enova/common/error.py, the classes of errors and `EmergingAIBaseError.__init__`.
--   * Config: enova/common/config.py. `Config` is a record of two maps; `load_enviroments`,
--     `load_config`, `load_args`, `update_config` and `_inner_getattr` are functions of them, with
--     the environment and the file as arguments. Config/Defaults is `default_map`.
--   * Local: enova/common/local.py and g_vars.py, the values of a request and of a thread.
--   * Size: sizes of storage in enova/common/utils.py, and the estimates of parameters in
--     enova/enode/utils.py.
--   * Server: `common_list`, `SingleResource` and `update_model_ins` of
--     enova/server/restful/service.py, over a list of rows; Query is `build_query_condition` and the
--     joins, Bounds the request model of serializer.py, and Middleware the middlewares of
--     enova/server/middleware with the exception handlers of enova/server/server.py.
--   * Api: enova/api/base.py. Template is the builder of URLs, Restful the resources, Escaler the
--     pipelines of escaler_api.py and the other clients, and Envelope a client and its server.
--   * Algo: enova/algo/service.py. Metrics and Detect hold the series and the anomaly rules, Factors,
--     Models and Memory the search for a configuration, Recommend the advice at a cold start, and
--     Recover `llm_config_recovery` in its three numbered stages.
--   * App: enova/app/service.py. Store has the two tables of enova/app/db_modles.py, the settings,
--     the calls that change something outside, and the session, in which an exception keeps the tables.
--     A method is an action: a function from a state to a result and a state. Deploy, Payload and
--     Escaler are `EScalerActionHandler`, Instances the methods on instances, Injection
--     and Report `TestActionHandler`, with what it uses of enova/entry/command/injector.py and
--     enova/common/cli_helper.py, and Traffic the methods on tests. System has each request as a
--     step of one system, the states that are reached by steps, and what a client may see of them;
--     System/Overlap lets the creations of tests overlap at the await behind their count, and the
--     end of a reading come at any later time, and Instances/Race lets two creations of instances
--     overlap. Elsewhere a request runs from its start to its end.
--   * Command: the command line. Args is `parse_extra_args`, `ArgumentHelper` and `get_user_args`,
--     Compose `DockerComposeHeler`, Service and Service/Order the services and `EnovaService`, Pilot
--     `EnovaPilot`, and Jmeter `TrafficInjector` (enova/common/cli_helper.py, enova/entry/command).
--   * Database: enova/database/relation, the engines, their router, and the models' base.
--   * Enode: enova/enode/hf.py, the pipeline of a model and the mapping of its errors.
--   * Instrument: llmo/enova-instrumentation-llmo/enova/llmo, the middleware that reads bodies, the
--     metrics, and the wrappers of vllm.
--
-- A request for an instance reads and changes the tables through Store, asks the escaler through
-- Escaler, and raises the errors of Error; a test asks for its instance first, and then for the
-- injector. The application service takes the table of models from Algo. Around a request stand the
-- middlewares of Server, which a client of Api undoes; the pilot of Command starts the services
-- and talks to the application through such clients.
--
-- Code of others is a parameter: numpy and pandas (Algo.Metrics.Analytics), the numbers of Python where
-- ints and floats mix (Algo.Numbers.Numbers), the escaler, transformers and the machine
-- (App.Instances.Answers and Replies, Enode.Library), docker, prometheus and the file system
-- (App.Injection.Machine, Command.Compose.Docker, Command.Service.Site, Command.Jmeter.Rig),
-- sqlalchemy (its `delete`, and Database.Engine.Library), httpx (Api.Client), pydantic
-- (Api.Escaler.Models), json and `int` (Config.Readers), and regular expressions (Size.Floats). A
-- parameter answers `none` where the code raises.
--
-- Loops are recursion on lists. Two loops are on fuel. That of `prime_factors` starts with
-- the number itself: each step raises the candidate or divides the number, so that the fuel
-- outlasts the test `i * i <= n`. That of `parse_extra_args` has one turn more than there are
-- arguments, and each turn passes one at least. Numbers that count are natural numbers, and
-- differences are taken where the code keeps them from going below zero, or are integers.
--
-- Not modelled: the routes and the declarations of click, logging, the start of vllm, the web pages,
-- the escaler in Go and the front end; and of the modelled files the formatting of sizes, the metaclass
-- of the models, the signatures that pydantic makes of handlers, the `sync_` variants of the clients, and
-- the wrapping of methods for instrumentation.
pub mod Prelude
pub mod Constant
pub mod Error
pub mod Value
pub mod Local
pub mod Api
pub mod Command
pub mod Database
pub mod Instrument
pub mod Enode
pub mod Config
pub mod Size
pub mod Server
pub mod App
pub mod Algo
