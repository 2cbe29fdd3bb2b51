-- ===== src/Csv/Quoting.antt =====
-- Proofs about common/csv.ts: quoted values.
use Prim.Native.Char.{Char}
use Prim.Native.String.{◌++◌ as append, [] as empty, ◌∷◌ as cons}
use Prim.Native.String.append
use tmx_assessment.Prelude.{
  ℕ, ◌≡◌, refl, sym, ap, ◌∙◌, String, Bool, true, false, List, inl, inr, Bool-cases,
}
use tmx_assessment.Csv.{Reader, is_quote, next_is, read_char, read_all, doubled}

append-nil : (s : String) → append s empty ≡ s
append-nil empty = append.nil empty
append-nil (cons c s) = append.cons c s empty ∙ ap (cons c) (append-nil s)

append-cons :
    (s : String) (c : Char) (t : String) → append (append s (cons c empty)) t ≡ append s (cons c t)
append-cons empty c t =
    ap (λ x. append x t) (append.nil (cons c empty))
    ∙ append.cons c empty t
    ∙ ap (cons c) (append.nil t)
    ∙ sym (append.nil (cons c t))
append-cons (cons d s) c t =
    ap (λ x. append x t) (append.cons d s (cons c empty))
    ∙ append.cons d (append s (cons c empty)) t
    ∙ ap (cons d) (append-cons s c t)
    ∙ sym (append.cons d s (cons c t))

-- The reader inside a quoted value
abbrev quoted : List (List String) → List String → String → Bool → Bool → Reader
quoted records record' value in_quotes quoted_value = record {
  records = records;
  record' = record';
  value = value;
  in_quotes = in_quotes;
  quoted_value = quoted_value;
}

-- A value with its quotes doubled and a quote behind it, read inside quotes, is read as the value, and the
-- quotes close; whatever the separator, unless another quote follows.
pub read_all-doubled :
    (separator : ℕ) (records : List (List String)) (row : List String) (value v rest : String)
    (q : Char)
    → is_quote q ≡ true
    → next_is is_quote rest ≡ false
    → read_all separator false (append (doubled v) (cons q rest)) (record {
      records = records;
      record' = row;
      value = value;
      in_quotes = true;
      quoted_value = true;
    })
      ≡ read_all separator false rest (record {
        records = records;
        record' = row;
        value = append value v;
        in_quotes = false;
        quoted_value = true;
      })
unfolding read_all read_char doubled
read_all-doubled separator records row value empty rest q h k =
    rw (append.nil (cons q rest), h, k, append-nil value) refl
read_all-doubled separator records row value (cons c v) rest q h k =
    elim (Bool-cases (is_quote c)) [
      | inl e ↦ rw e (
          rw
            (
              append.cons c (cons c (doubled v)) (cons q rest),
              append.cons c (doubled v) (cons q rest),
              read_all,
              e,
              ← append-cons value c v,
            )
            (read_all-doubled separator records row (append value (cons c empty)) v rest q h k))
      | inr e ↦ rw e (
          rw (append.cons c (doubled v) (cons q rest), read_all, e, ← append-cons value c v)
            (read_all-doubled separator records row (append value (cons c empty)) v rest q h k))
    ]
