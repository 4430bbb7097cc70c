-- ===== src/Security/Audit.antt =====
-- What the audit log keeps.
use rmw_axon.Prelude.{
  ℕ, ◌+◌, ◌-◌, max, ◌≡◌, refl, sym, ap, ◌∙◌, ◌⊎◌, inl, inr, List, [], ◌∷◌, ◌++◌, append_assoc,
  append-nil, arith, leb, ◌==◌, Bool-cases, length, drop, length-append, length-drop, drop-nil,
  drop-drop, drop-append_le,
}
use rmw_axon.Security.{Entry, AuditLog, new_log, log, recent}

unfoldable pub log_all : AuditLog → List Entry → AuditLog
log_all l [] = l
log_all l (e ∷ es) = log_all (log l e) es

-- A log that keeps the last entries of the history.
record Keeps (n : ℕ) (h : List Entry) (l : AuditLog) : Type 0 where
  max_is : l.max_entries ≡ n
  entries_are : l.entries ≡ drop (length h - max n 1) h

drop-same : (i j : ℕ) (xs : List Entry) → (i ≡ j) ⊎ (length xs ≡ 0) → drop i xs ≡ drop j xs
drop-same i j xs (inl e) = ap (λ k. drop k xs) e
drop-same i j [] (inr e) = drop-nil Entry i ∙ sym (drop-nil Entry j)
drop-same i j (x ∷ xs) (inr e) = absurd (omega arith)

log-Keeps :
    (n : ℕ) (h : List Entry) (e : Entry) (l : AuditLog)
    → Keeps n h l
    → Keeps n (h ++ e ∷ []) (log l e)
unfolding log
log-Keeps n h e l k =
    let size = ap length k.entries_are ∙ length-drop (length h - max n 1) h in
    let skipped = length h - max n 1 in
    let next = length (h ++ e ∷ []) - max n 1 in
    let grown = length-append h (e ∷ []) in
    let shift : drop next (h ++ e ∷ []) ≡ drop next h ++ e ∷ [] =
      drop-append_le next h (e ∷ []) (omega (arith, grown)) in
    record {
      max_is = k.max_is;
      entries_are = elim (Bool-cases (leb l.max_entries (length l.entries))) [
        | inl full ↦
            let same : drop (skipped + 1) h ≡ drop next h = elim (Bool-cases (length h == 0)) [
              | inl empty ↦ drop-same (skipped + 1) next h (inr (ground arith))
              | inr filled ↦
                  drop-same (skipped + 1) next h (inl (ground (arith, k.max_is, size, grown)))
            ] in
            rw (full, shift)
              (ap (λ xs. drop 1 xs ++ e ∷ []) k.entries_are
                ∙ ap (λ xs. xs ++ e ∷ []) (drop-drop 1 skipped h ∙ same))
        | inr room ↦
            let e₁ : skipped ≡ next = ground (arith, k.max_is, size, grown) in
            rw (room, shift, ← e₁) (ap (λ xs. xs ++ e ∷ []) k.entries_are)
      ];
    }

log_all-Keeps :
    (n : ℕ) (h es : List Entry) (l : AuditLog) → Keeps n h l → Keeps n (h ++ es) (log_all l es)
unfolding log_all
log_all-Keeps n h [] l k = rw append-nil k
log_all-Keeps n h (e ∷ es) l k =
    rw (← append_assoc h (e ∷ []) es)
      (log_all-Keeps n (h ++ e ∷ []) es (log l e) (log-Keeps n h e l k))

-- A new log to which entries were logged returns the last `max_entries` of them, in their order, and
-- at least the last one.
pub recent-log_all :
    (max_entries : ℕ) (es : List Entry)
    → recent (log_all (new_log max_entries) es) ≡ drop (length es - max max_entries 1) es
unfolding recent new_log
recent-log_all max_entries es =
    (log_all-Keeps max_entries [] es (new_log max_entries) (record {
      max_is = refl;
      entries_are = sym (drop-nil Entry (0 - max max_entries 1));
    })).entries_are
