-- ===== src/Config/Defaults.antt =====
-- `Config.default_map` of enova/common/config.py.
use enova.Prelude.{true}
use enova.Prelude.Int.{pos}
use enova.Value.{int, text, bool, list, dict, nil, cons, Fields, field, end}

abbrev pkg_default : Fields
pkg_default = (field "version" (text "0.0.5") end)

abbrev api_default : Fields
api_default =
    (field "docs_url" (text "/api/docs") (
      field "redoc_url" (text "/api/redoc") (
        field "openapi_url" (text "/api/openapi.json") (
          field "harbor_username" (text "admin") (
            field "harbor_passwd" (text "") (
              field "api_version" (text "v1") (
                field "auth_api_version" (text "v1") (
                  field "default_min_page" (int (pos 1)) (
                    field "default_max_page" (int (pos 1000)) (
                      field "default_max_size" (int (pos 200)) (
                        field "default_min_size" (int (pos 1)) (
                          field "termination_grace_period_seconds" (int (pos 30)) (
                            field "databases"
                              (dict (
                                field "default"
                                  (dict (
                                    field "database" (text "enova_database")
                                      (field "data_dir" (text "/tmp") end)))
                                  end))
                              end)))))))))))))

abbrev logger_default : Fields
logger_default =
    (field "name" (text "server") (
      field "path" (text "./var/log/emergingai") (
        field "level" (text "debug") (
          field "datefmt" (text "%Y-%m-%d %a %H:%M:%S") (
            field "fmt"
              (text
                "[%(asctime)s.%(msecs)d][%(levelname)s][%(processName)s][%(process)d][%(threadName)s][%(name)s][%(pathname)s:%(lineno)s - %(funcName)s()] %(message)s")
              (field "file_handler_filename_format" (text "{path}/{name}.log") (
                field "file_handler_when" (text "H") (
                  field "file_handler_interval" (int (pos 1)) (
                    field "file_handler_backupCount" (int (pos 336)) (
                      field "file_handler_suffix" (text "%Y-%m-%d_%H.log") (
                        field "file_handler_extMatch_pattern"
                          (text "^\\d{4}-\\d{2}-\\d{2}_\\d{2}.log$") end)))))))))))

abbrev serving_default : Fields
serving_default =
    (field "backend" (text "vllm") (
      field "host" (text "0.0.0.0")
        (field "port" (int (pos 9199)) (field "replica" (int (pos 1)) end))))

abbrev webui_default : Fields
webui_default =
    (field "host" (text "0.0.0.0") (
      field "port" (int (pos 8501))
        (field "script" (text "webui/chat.py") (field "daemon" (bool true) end))))

abbrev llmo_default : Fields
llmo_default =
    (field "eai_exporter_endpoint" (text "otel-collector:4317")
      (field "eai_exporter_service_name" (text "llmo-svc") end))

abbrev vllm_default : Fields
vllm_default =
    (field "tensor_parallel_size" (int (pos 1))
      (field "vllm_mode" (text "normal") (field "trust_remote_code" (bool true) end)))

abbrev deploy_default : Fields
deploy_default =
    (field "docker_compose_exce"
      (text "template/deployment/docker-compose/bin/docker-compose-linux-x86_64") end)

abbrev enova_algo_default : Fields
enova_algo_default =
    (field "middleware_names"
      (list (
        cons (text "enova.server.middleware.trace.TraceMiddleware")
          (cons (text "enova.server.middleware.response.ResponseMiddleware") nil)))
      (field "resource_names" (list (cons (text "enova.algo.resource") nil)) (
        field "host" (text "0.0.0.0") (
          field "port" (int (pos 8181))
            (field "url_prefix" (text "/api/enovaalgo") (field "api_version" (text "v1") end))))))

abbrev enova_app_default : Fields
enova_app_default =
    (field "middleware_names"
      (list (
        cons (text "enova.server.middleware.trace.TraceMiddleware")
          (cons (text "enova.server.middleware.response.ResponseMiddleware") nil)))
      (field "resource_names" (list (cons (text "enova.app.resource") nil)) (
        field "host" (text "0.0.0.0") (
          field "port" (int (pos 8182)) (
            field "url_prefix" (text "") (
              field "api_version" (text "v1") (
                field "escaler_api_host" (text "http://enova-escaler:8183") (
                  field "app_api_host" (text "http://127.0.0.1:8182") (
                    field "prom_api_host" (text "http://enova-prometheus:9090") (
                      field "prom_time_step" (text "1m") (
                        field "enode_api_host" (text "http://enova-enode:9199") (
                          field "model_dir" (text "/workspace/model") (
                            field "dataset_dir_container"
                              (text
                                "/opt/enova/enova/template/deployment/docker-compose/traffic-injector/data")
                              end)))))))))))))

abbrev cli_default : Fields
cli_default =
    (field "default_app_healthz_check_count" (int (pos 10)) (
      field "context_settings"
        (dict (field "help_option_names" (list (cons (text "-h") (cons (text "--help") nil))) end))
        (field "subcmd_context_settings"
          (dict (
            field "help_option_names" (list (cons (text "-h") (cons (text "--help") nil))) (
              field "ignore_unknown_options" (bool true)
                (field "allow_extra_args" (bool true) end))))
          end)))

abbrev traffic_injector_default : Fields
traffic_injector_default =
    (field "conf" (text "template/deployment/docker-compose/traffic-injector") (
      field "cache_dir" (text "/tmp/traffic_injector") (
        field "dataset_dir" (text "traffic_injector_dataset") (
          field "dataset_host_dir" (text "/home/traffic_injector_dataset")
            (field "default_enode_host" (text "enova-enode") end)))))

abbrev pub default_map : Fields
default_map =
    (field "pkg" (dict pkg_default) (
      field "app_name" (text "") (
        field "api" (dict api_default) (
          field "logger" (dict logger_default) (
            field "scheduler" (dict end) (
              field "apps" (dict end) (
                field "TEMP_DIR" (text "/tmp") (
                  field "object_spilling_paths" (list (cons (text "/tmp/ray/spills") nil)) (
                    field "serving" (dict serving_default) (
                      field "webui" (dict webui_default) (
                        field "llmo" (dict llmo_default) (
                          field "vllm" (dict vllm_default) (
                            field "deploy" (dict deploy_default) (
                              field "enova_algo" (dict enova_algo_default) (
                                field "enova_app" (dict enova_app_default) (
                                  field "enova_enode" (dict end) (
                                    field "cli" (dict cli_default) (
                                      field "traffic_injector" (dict traffic_injector_default)
                                        end))))))))))))))))))
