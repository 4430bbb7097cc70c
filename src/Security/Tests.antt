-- ===== src/Security/Tests.antt =====
-- The access lists and the log at concrete rules and entries.
use rmw_axon.Prelude.{
  ℕ, ◌≡◌, Bool, true, false, Option, none, some, List, [], ◌∷◌, ◌==◌, if◌then◌else◌,
}
use rmw_axon.Security.{
  Glob, publish, new_engine, add_rules, check, Entry, send, recv, new_log, recent,
}
use rmw_axon.Security.Audit.{log_all, recent-log_all}
use rmw_axon.Security.Access.{check-add_rules}

abbrev entries : List Entry
entries = (send, 1 ∷ [], 10) ∷ (recv, 2 ∷ [], 20) ∷ (send, 3 ∷ [], 30) ∷ []

recent-log_all_example :
    recent (log_all (new_log 2) entries) ≡ (recv, 2 ∷ [], 20) ∷ (send, 3 ∷ [], 30) ∷ []
recent-log_all_example = recent-log_all 2 entries

-- A rule is a first byte that a topic must have; 91 alone is no rule.
abbrev starts_with : ℕ → List ℕ → Bool
starts_with p [] = false
starts_with p (b ∷ bs) = b == p

abbrev parse_byte : List ℕ → Option ℕ
parse_byte [] = none
parse_byte (b ∷ bs) = if b == 91 then none else some b

abbrev first_byte : Glob ℕ
first_byte = record { parse = parse_byte; matches = starts_with }

check-add_rules_example :
    check first_byte (add_rules first_byte new_engine publish ((91 ∷ []) ∷ [])) publish (47 ∷ [])
    ≡ true
check-add_rules_example = check-add_rules first_byte publish ((91 ∷ []) ∷ []) (47 ∷ [])
