-- ===== src/Security.antt =====
-- axon_core/src/security.rs: the access lists and the audit log. A glob pattern is a parameter, with
-- what `Pattern::new` and `matches` of the glob library return; a topic is its bytes. The log's time
-- stamps, which nothing reads, are left out.
pub mod Audit
pub mod Access
mod Tests
use rmw_axon.Prelude.{
  ℕ, zero, suc, ◌+◌, ◌-◌, ◌*◌, ◌/◌, ◌%◌, ◌^◌, ◌≤◌, ◌<◌, min, max, ◌≡◌, refl, sym, ap, ◌∙◌, ◌≢◌, ◌↔◌,
  ◌⊎◌, inl, inr, Bool, true, false, ◌&&◌, ◌||◌, not, Option, none, some, List, [], ◌∷◌, ◌++◌, map,
  append_assoc, append-nil, arith, ltb, leb, ◌==◌, if◌then◌else◌, ltb→lt, lt→ltb, leb→le, le→leb,
  le→ltb_false, lt→leb_false, ==_iff, ==_self, Bool-cases, Option-cases, length, get_elem?, take,
  drop, get_last?, length-append, take-append, drop-append, length-take, length-drop,
  get_elem?-none, get_elem?-append_here, get_elem?-append_left, get_last?-append, drop-nil,
  drop-cons, drop_none, List-cases, subst, get_elem?-drop, drop-drop, drop-append_le, length-map,
  get_last?-cons, lt-of-get_elem?, get_or, set, replicate, length-set, length-replicate,
  get_or-set_self, get_or-set_ne, get_elem?-append_right,
}

pub data Direction : Type 0 where
  publish subscribe : Direction

pub record Glob {ℓ} (Pattern : Type ℓ) : Type ℓ where
  pub parse : List ℕ → Option Pattern
  pub matches : Pattern → List ℕ → Bool

pub record AclEngine {ℓ} (Pattern : Type ℓ) : Type ℓ where
  pub allow_publish : List Pattern
  pub allow_subscribe : List Pattern

abbrev pub any {ℓ} : {A : Type ℓ} → (A → Bool) → List A → Bool
any p [] = false
any p (x ∷ xs) = p x || any p xs

abbrev pub is_empty {ℓ} : {A : Type ℓ} → List A → Bool
is_empty [] = true
is_empty (x ∷ xs) = false

unfoldable pub new_engine {ℓ} : {Pattern : Type ℓ} → AclEngine Pattern
new_engine = record { allow_publish = []; allow_subscribe = [] }

abbrev pub patterns_of {ℓ} : {Pattern : Type ℓ} → Direction → AclEngine Pattern → List Pattern
patterns_of publish e = e.allow_publish
patterns_of subscribe e = e.allow_subscribe

abbrev pub push_pattern {ℓ} :
    {Pattern : Type ℓ} → Direction → Pattern → AclEngine Pattern → AclEngine Pattern
push_pattern publish p e = record e { allow_publish = e.allow_publish ++ p ∷ [] }
push_pattern subscribe p e = record e { allow_subscribe = e.allow_subscribe ++ p ∷ [] }

-- A rule that is not a pattern is left out.
unfoldable pub add_rule {ℓ} :
    {Pattern : Type ℓ}
    → Glob Pattern
    → AclEngine Pattern
    → Direction
    → List ℕ
    → Bool × AclEngine Pattern
add_rule g e direction rule = elim (g.parse rule) [
  | none ↦ (false, e)
  | some p ↦ (true, push_pattern direction p e)
]

-- The loop of `from_env` over the rules of one of its two variables.
unfoldable pub add_rules {ℓ} :
    {Pattern : Type ℓ}
    → Glob Pattern
    → AclEngine Pattern
    → Direction
    → List (List ℕ)
    → AclEngine Pattern
add_rules g e direction [] = e
add_rules g e direction (rule ∷ rules) = add_rules g (add_rule g e direction rule).1 direction rules

unfoldable pub check {ℓ} :
    {Pattern : Type ℓ} → Glob Pattern → AclEngine Pattern → Direction → List ℕ → Bool
check g e direction topic =
    let patterns = patterns_of direction e in
    is_empty patterns || any (λ p. g.matches p topic) patterns

pub data AuditDirection : Type 0 where
  send recv : AuditDirection

abbrev pub Entry : Type 0
Entry = AuditDirection × List ℕ × ℕ

pub record AuditLog : Type 0 where
  pub entries : List Entry
  pub max_entries : ℕ

unfoldable pub new_log : ℕ → AuditLog
new_log max_entries = record { entries = []; max_entries = max_entries }

unfoldable pub log : AuditLog → Entry → AuditLog
log l entry =
    let kept = if leb l.max_entries (length l.entries) then drop 1 l.entries else l.entries in
    record l { entries = kept ++ entry ∷ [] }

unfoldable pub recent : AuditLog → List Entry
recent l = l.entries
