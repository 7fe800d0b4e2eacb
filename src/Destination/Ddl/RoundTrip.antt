-- ===== src/Destination/Ddl/RoundTrip.antt =====
-- A quoted identifier is read back, src/airgap_sync/destination/ddl.py.
use mathlib.Core.List.{append_assoc}
use mathlib.Core.Option
use airgap_sync.Base.{
  Bool, Bool-cases, List, Option, [], ap, arith, false, if◌then◌else◌, inl, inr, leb, length,
  nat_beq_iff, nat_eq, none, not, option_eq, refl, some, string_eq, sym, true, ℕ, ◌&&◌, ◌++◌, ◌==◌,
  ◌∙◌, ◌∷◌, ◌≡◌,
}
use airgap_sync.Destination.Ddl.{
  backtick, doubled, identifier_at, quote_identifier, quoted_at, with_char,
}

-- What follows the name does not begin with a backtick.
abbrev pub no_backtick : List ℕ → Bool
no_backtick [] = true
no_backtick (c ∷ cs) = not (c == backtick)

held_end : (rest : List ℕ) → no_backtick rest ≡ true → quoted_at true rest ≡ some ([], rest)
unfolding quoted_at
held_end [] h = refl
held_end (c ∷ cs) h = ground (arith, h)

plain_at :
    (c : ℕ) (cs : List ℕ)
    → (c == backtick) ≡ false
    → quoted_at false (c ∷ cs) ≡ with_char c (quoted_at false cs)
unfolding quoted_at
plain_at c cs e = rw e refl

doubled_plain : (c : ℕ) (cs : List ℕ) → (c == backtick) ≡ false → doubled (c ∷ cs) ≡ c ∷ doubled cs
unfolding doubled
doubled_plain c cs e = rw e refl

doubled_tick :
    (c : ℕ) (cs : List ℕ)
    → (c == backtick) ≡ true
    → doubled (c ∷ cs) ≡ backtick ∷ backtick ∷ doubled cs
unfolding doubled
doubled_tick c cs e = rw e refl

tick_at :
    (cs : List ℕ)
    → quoted_at false (backtick ∷ backtick ∷ cs) ≡ with_char backtick (quoted_at false cs)
unfolding quoted_at
tick_at cs = refl

quoted_doubled :
    (name rest : List ℕ)
    → no_backtick rest ≡ true
    → quoted_at false (doubled name ++ (backtick ∷ rest)) ≡ some (name, rest)
unfolding doubled quoted_at
quoted_doubled [] rest h = held_end rest h
quoted_doubled (c ∷ cs) rest h =
    let tail = doubled cs ++ (backtick ∷ rest) in
    elim (Bool-cases (c == backtick)) [
      | inl e ↦
          ap (λ x. quoted_at false (x ++ (backtick ∷ rest))) (doubled_tick c cs e)
          ∙ tick_at tail
          ∙ ap (with_char backtick) (quoted_doubled cs rest h)
          ∙ ap (λ x. some (x ∷ cs, rest)) (sym ((nat_beq_iff c backtick).0 e))
      | inr e ↦
          ap (λ x. quoted_at false (x ++ (backtick ∷ rest))) (doubled_plain c cs e)
          ∙ plain_at c tail e
          ∙ ap (with_char c) (quoted_doubled cs rest h)
    ]

-- A name that is neither empty nor longer than 64 characters.
abbrev pub is_quotable : List ℕ → Bool
is_quotable name = leb 1 (length name) && leb (length name) 64

quote_identifier_lem :
    (name : List ℕ)
    → quote_identifier name
      ≡ (if is_quotable name then some (backtick ∷ doubled name ++ (backtick ∷ [])) else none)
unfolding quote_identifier
quote_identifier_lem name = ground arith

-- A name can be quoted exactly when it is neither empty nor longer than 64 characters, and is then read
-- back from its quoted form, whatever follows it, unless that begins with a backtick.
pub identifier_at-quote_identifier :
    (is_word : ℕ → Bool) (name rest : List ℕ)
    → no_backtick rest ≡ true
    → Option.map (λ quoted. identifier_at is_word (quoted ++ rest)) (quote_identifier name)
      ≡ (if is_quotable name then some (some (name, rest)) else none)
unfolding identifier_at
identifier_at-quote_identifier is_word name rest h =
    let read : List ℕ → Option (List ℕ × List ℕ) =
      λ quoted. identifier_at is_word (quoted ++ rest) in
    let back =
      ap (quoted_at false) (append_assoc (doubled name) (backtick ∷ []) rest)
      ∙ quoted_doubled name rest h in
    ap (Option.map read) (quote_identifier_lem name)
    ∙ elim (Bool-cases (is_quotable name)) [ inl e ↦ rw e (ap some back) | inr e ↦ rw e refl ]
