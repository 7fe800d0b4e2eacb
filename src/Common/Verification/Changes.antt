-- ===== src/Common/Verification/Changes.antt =====
-- Changes of rows that the digest shows.
use airgap_sync.Base.{
  List, ap, arith, length, length-append, sum_of, sum_of-append, ℕ, ◌%◌, ◌++◌, ◌+◌, ◌<◌, ◌↔◌, ◌∷◌,
  ◌≡◌,
}
use airgap_sync.Common.Verification.{
  Bytes, Hashes, MultisetDigest, VerificationSummary, modulus, new_digest, summary, update_rows,
}
use airgap_sync.Common.Verification.Hex.{hex_text_exact}
use airgap_sync.Common.Verification.Laws.{IsReduced, update_rows-closed}

-- SHA-256 has 256 bits.
pub record IsHash (h : Hashes) : Type 0 where
  pub bound_a : (row : Bytes) → h.hash_a row < modulus
  pub bound_b : (row : Bytes) → h.hash_b row < modulus

sum_of-change :
    (f : Bytes → ℕ) (xs ys : List Bytes) (row : Bytes)
    → sum_of f (xs ++ row ∷ ys) ≡ sum_of f xs + f row + sum_of f ys
sum_of-change f xs ys row = omega (arith, sum_of-append f xs (row ∷ ys))

module _ (h : Hashes) where
  reduced : (rows : List Bytes) → IsReduced h (update_rows h rows new_digest)
  reduced rows =
      let start : IsReduced h new_digest = omega arith in
      omega (arith, update_rows-closed h rows new_digest start)

  -- Equal summaries come from equal digests.
  summary_injective :
      (d e : MultisetDigest) → IsReduced h d → IsReduced h e → summary d ≡ summary e → d ≡ e
  unfolding summary
  summary_injective d e vd ve p = ground (
    arith,
    hex_text_exact d.sum_a e.sum_a vd.0 ve.0 (ap (λ (s : VerificationSummary). s.digest_a) p),
    hex_text_exact d.sum_b e.sum_b vd.1 ve.1 (ap (λ (s : VerificationSummary). s.digest_b) p),
    ap (λ (s : VerificationSummary). s.row_count) p,
  )

  -- Two lists of rows have the same summary exactly when they have the same number of rows and, modulo
  -- 2^256, the same sum of each of the two hashes.
  pub summary_iff :
      (xs ys : List Bytes)
      → (summary (update_rows h xs new_digest) ≡ summary (update_rows h ys new_digest)) ↔ (
          (length xs ≡ length ys)
          × (sum_of h.hash_a xs % modulus ≡ sum_of h.hash_a ys % modulus)
          × (sum_of h.hash_b xs % modulus ≡ sum_of h.hash_b ys % modulus))
  summary_iff xs ys = (
    λ p. same (summary_injective _ _ (reduced xs) (reduced ys) p),
    λ q. ap summary (
        ground (
          arith,
          update_rows-closed h xs new_digest start,
          update_rows-closed h ys new_digest start,
        )),
  )
    where
      start : IsReduced h new_digest
      start = omega arith

      same :
          update_rows h xs new_digest ≡ update_rows h ys new_digest
          → (length xs ≡ length ys)
            × (sum_of h.hash_a xs % modulus ≡ sum_of h.hash_a ys % modulus)
            × (sum_of h.hash_b xs % modulus ≡ sum_of h.hash_b ys % modulus)
      same e = omega (
        arith,
        update_rows-closed h xs new_digest start,
        update_rows-closed h ys new_digest start,
        ap (λ (d : MultisetDigest). d.sum_a) e,
        ap (λ (d : MultisetDigest). d.sum_b) e,
        ap (λ (d : MultisetDigest). d.row_count) e,
      )

-- With hashes below 2^256, replacing one row of a snapshot keeps its summary exactly when both hashes
-- of the new row are those of the old one.
pub summary_of_change :
    (h : Hashes) (xs ys : List Bytes) (row row' : Bytes)
    → IsHash h
    → (summary (update_rows h (xs ++ row ∷ ys) new_digest)
        ≡ summary (update_rows h (xs ++ row' ∷ ys) new_digest))
      ↔ ((h.hash_a row ≡ h.hash_a row') × (h.hash_b row ≡ h.hash_b row'))
summary_of_change h xs ys row row' sound = (
  λ p. found ((summary_iff h (xs ++ row ∷ ys) (xs ++ row' ∷ ys)).0 p),
  λ q. (summary_iff h (xs ++ row ∷ ys) (xs ++ row' ∷ ys)).1 (
      omega (
        arith,
        q,
        change_a row,
        change_a row',
        change_b row,
        change_b row',
        length-append xs (row ∷ ys),
        length-append xs (row' ∷ ys),
      )),
)
  where
    change_a :
        (r : Bytes)
        → sum_of h.hash_a (xs ++ r ∷ ys) ≡ sum_of h.hash_a xs + h.hash_a r + sum_of h.hash_a ys
    change_a = sum_of-change h.hash_a xs ys

    change_b :
        (r : Bytes)
        → sum_of h.hash_b (xs ++ r ∷ ys) ≡ sum_of h.hash_b xs + h.hash_b r + sum_of h.hash_b ys
    change_b = sum_of-change h.hash_b xs ys

    found :
        (length (xs ++ row ∷ ys) ≡ length (xs ++ row' ∷ ys))
          × (sum_of h.hash_a (xs ++ row ∷ ys) % modulus
              ≡ sum_of h.hash_a (xs ++ row' ∷ ys) % modulus)
          × (sum_of h.hash_b (xs ++ row ∷ ys) % modulus
              ≡ sum_of h.hash_b (xs ++ row' ∷ ys) % modulus)
        → (h.hash_a row ≡ h.hash_a row') × (h.hash_b row ≡ h.hash_b row')
    found q = omega (
      arith,
      q,
      change_a row,
      change_a row',
      change_b row,
      change_b row',
      sound.bound_a row,
      sound.bound_a row',
      sound.bound_b row,
      sound.bound_b row',
    )
