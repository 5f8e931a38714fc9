-- ===== src/Instrument/Replay.antt =====
-- The application behind the middleware (instrumentation/fastapi/__init__.py).
use enova.Prelude.{
  ◌≡◌, refl, ◌∙◌, ap, ℕ, zero, suc, Bool, true, false, List, [], ◌∷◌, ◌++◌, Option, none, some,
  if◌then◌else◌, take, str_eq, Bool-cases, inl, inr,
}
use enova.Instrument.{Message, Scope, is_generation, read_body, cons_message, call, received}

-- A body that has an end.
abbrev pub has_end : List Message → Bool
has_end [] = false
has_end (m ∷ inbox) = if m.more_body then has_end inbox else true

-- What was read, and what is left, make up the messages.
abbrev Split : List Message → Option (List Message × List Message) → Type 0
Split inbox none = ⊥
Split inbox (some (messages, rest)) = messages ++ rest ≡ inbox

cons-Split :
    (m : Message) (inbox : List Message) (o : Option (List Message × List Message))
    → Split inbox o
    → Split (m ∷ inbox) (cons_message m o)
cons-Split m inbox none h = h
cons-Split m inbox (some (messages, rest)) h = ap (λ xs. m ∷ xs) h

last_or_more :
    (m : Message) (inbox : List Message) (b : Bool)
    → (has_end inbox ≡ true → Split inbox (read_body inbox))
    → (if b then has_end inbox else true) ≡ true
    → Split (m ∷ inbox) (if b then cons_message m (read_body inbox) else some (m ∷ [], inbox))
last_or_more m inbox true ih h = cons-Split m inbox (read_body inbox) (ih h)
last_or_more m inbox false ih h = refl

read_body-Split : (inbox : List Message) → has_end inbox ≡ true → Split inbox (read_body inbox)
unfolding read_body
read_body-Split [] h = cc
read_body-Split (m ∷ inbox) h = last_or_more m inbox m.more_body (read_body-Split inbox) h

received-take :
    (n : ℕ) (messages rest : List Message) → received n (messages, rest) ≡ take n (messages ++ rest)
unfolding received
received-take zero messages rest = refl
received-take (suc n) (m ∷ messages) rest = ap (λ xs. m ∷ xs) (received-take n messages rest)
received-take (suc n) [] (m ∷ rest) = ap (λ xs. m ∷ xs) (received-take n [] rest)
received-take (suc n) [] [] = refl

-- What the application is handed: it receives what it would receive without the middleware.
abbrev pub Replays : List Message → ℕ → Option ((List Message × List Message) × Bool) → Type 0
Replays inbox n none = ⊥
Replays inbox n (some (p, is_counted)) = received n p ≡ take n inbox

of_Split :
    (inbox : List Message) (n : ℕ) (o : Option (List Message × List Message))
    → Split inbox o
    → Replays inbox n (elim o [ none ↦ none | some p ↦ some (p, true) ])
of_Split inbox n none h = h
of_Split inbox n (some (messages, rest)) h = received-take n messages rest ∙ ap (take n) h

-- The middleware hands every request whose body has an end to the application, which receives the messages
-- of the request, each once and in their order, as it would without the middleware.
pub call-Replays :
    (s : Scope) (inbox : List Message) (n : ℕ)
    → has_end inbox ≡ true
    → Replays inbox n (call s inbox)
unfolding call
call-Replays s inbox n ends = elim (Bool-cases (str_eq s.type_ "http")) [
  | inr other ↦ rw other (received-take n [] inbox)
  | inl http ↦ elim (Bool-cases (is_generation s)) [
    | inl reads ↦ rw (http, reads) (of_Split inbox n (read_body inbox) (read_body-Split inbox ends))
    | inr passes ↦ rw (http, passes) (received-take n [] inbox)
  ]
]
