-- ===== src/Auth/Renewed.antt =====
-- Proofs about the update of sessions.service.ts that renews a session: the row that it found is the only
-- one that it writes.
use tmx_assessment.Prelude.{
  ℕ, ◌+◌, ◌≤◌, ◌≡◌, arith, Bool, true, some, List, [], ◌∷◌, All, inl, inr, Bool-cases, find?,
  count_if,
}
use tmx_assessment.Prelude.Text.{◌===◌, eq_refl}
use tmx_assessment.Prelude.Counting.{find?_first}
use tmx_assessment.Take.Store.{update_many}
use tmx_assessment.Auth.Store.{Session}
use tmx_assessment.Auth.Sessions.{session_absolute_ttl}
use tmx_assessment.Auth.Expiry.{IsCapped}

-- An update of no row
unmatched_keeps :
    (test : Session → Bool) (change : Session → Session) (ss : List Session)
    → count_if test ss ≡ 0
    → All IsCapped ss
    → All IsCapped (update_many test change ss)
unmatched_keeps test change [] c h = tt
unmatched_keeps test change (s ∷ ss) c h = elim (Bool-cases (test s)) [
  | inl e ↦ absurd (ground arith)
  | inr e ↦ rw e (h.0, unmatched_keeps test change ss (ground arith) h.1)
]

found_counts :
    (test : Session → Bool) (ss : List Session) (s : Session)
    → find? test ss ≡ some s
    → 1 ≤ count_if (λ t. t.id === s.id) ss
found_counts test [] s f = cc
found_counts test (t ∷ ss) s f = elim (Bool-cases (test t)) [
  | inl e ↦
      let same : t ≡ s = find?_first test t ss s e f in
      let matches : (t.id === s.id) ≡ true = rw same (eq_refl s.id) in ground (arith, matches)
  | inr e ↦ let later = found_counts test ss s (rw e at f) in ground (arith, later)
]

-- The update of the row that was found, whose id no other row has
pub matched_keeps :
    (test : Session → Bool) (now end : ℕ) (ss : List Session) (s : Session)
    → end ≤ s.created_at + session_absolute_ttl
    → find? test ss ≡ some s
    → count_if (λ t. t.id === s.id) ss ≤ 1
    → All IsCapped ss
    → All IsCapped (
        update_many
          (λ t. t.id === s.id)
          (λ t. record t { last_used_at = now; expires_at = end })
          ss)
matched_keeps test now end [] s le f u h = tt
matched_keeps test now end (t ∷ ss) s le f u h = elim (Bool-cases (test t)) [
  | inl e ↦
      let same : t ≡ s = find?_first test t ss s e f in
      let matches : (t.id === s.id) ≡ true = rw same (eq_refl s.id) in
      let alone : count_if (λ x. x.id === s.id) ss ≡ 0 = ground (arith, matches) in
      rw matches (ground (arith, same), unmatched_keeps (λ x. x.id === s.id) _ ss alone h.1)
  | inr e ↦
      let found : find? test ss ≡ some s = rw e at f in
      let there = found_counts test ss s found in
      elim (Bool-cases (t.id === s.id)) [
        | inl i ↦ absurd (ground (arith, there))
        | inr i ↦ rw i (h.0, matched_keeps test now end ss s le found (ground arith) h.1)
      ]
]
