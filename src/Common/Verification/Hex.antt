-- ===== src/Common/Verification/Hex.antt =====
-- The hexadecimal text of a sum determines the sum.
use Prim.Native.Char.{code}
use native.Mathlib.Decide.{ℕ_discrete}
use native.Mathlib.Nat.{pow-suc, div-add-mod, mod-lt, mod-eq_of_lt, add-mul-mod_self_right}
use airgap_sync.Base.{
  Bool, ap, arith, if◌then◌else◌, ltb, nat_beq_iff, nat_eq, option_eq, refl, string_eq, suc, true,
  zero, ℕ, ◌%◌, ◌&&◌, ◌*◌, ◌+◌, ◌/◌, ◌<◌, ◌==◌, ◌^◌, ◌∙◌, ◌≡◌, ◌≤◌,
}
use airgap_sync.Common.Verification.{hex_char, hex_text, modulus}

-- The test holds of the first `k` numbers.
holds_up_to : (ℕ → Bool) → ℕ → Bool
holds_up_to test zero = true
holds_up_to test (suc k) = holds_up_to test k && test k

holds_up_to-found : (test : ℕ → Bool) (k d : ℕ) → d < k → holds_up_to test k ≡ true → test d ≡ true
unfolding holds_up_to
holds_up_to-found test zero d small all = absurd (omega arith)
holds_up_to-found test (suc k) d small all = elim (ℕ_discrete d k) [
  | yes e ↦ ground (arith, ap test e)
  | no ne ↦ holds_up_to-found test k d (omega arith) (ground arith)
]

-- What a digit stands for: '0' is 48 and 'a' is 97.
hex_code : ℕ → ℕ
hex_code d = if ltb d 10 then 48 + d else 87 + d

code-hex_char_table : holds_up_to (λ d. code (hex_char d) == hex_code d) 16 ≡ true
unfolding holds_up_to hex_char hex_code
code-hex_char_table = refl

code-hex_char : (d : ℕ) → d < 16 → code (hex_char d) ≡ hex_code d
code-hex_char d h = (nat_beq_iff _ _).0 (holds_up_to-found _ 16 d h code-hex_char_table)

hex_char_injective : (d e : ℕ) → d < 16 → e < 16 → hex_char d ≡ hex_char e → d ≡ e
unfolding hex_code
hex_char_injective d e hd he p = ground (arith, code-hex_char d hd, code-hex_char e he, ap code p)

pow-pos : (w : ℕ) → 0 < 16 ^ w
pow-pos zero = omega arith
pow-pos (suc w) = rw pow-suc (omega (arith, pow-pos w))

-- The last `suc w` digits are one digit and the last w.
mod-pow-suc : (w n : ℕ) → n % 16 ^ suc w ≡ n / 16 ^ w % 16 * 16 ^ w + n % 16 ^ w
mod-pow-suc w n = rw pow-suc (split (16 ^ w) (pow-pos w))
  where
    split : (p : ℕ) → 0 < p → n % (p * 16) ≡ n / p % 16 * p + n % p
    split p h =
        let q = n / p in
        let low = q % 16 * p + n % p in
        let whole : n ≡ low + q / 16 * (p * 16) =
          omega (arith, div-add-mod n p, ap (λ (t : ℕ). p * t) (div-add-mod q 16)) in
        let digit : q % 16 * p ≤ 15 * p = grind arith in
        let small : low < p * 16 = omega (arith, mod-lt n {m = p} h, digit) in
        ap (λ (x : ℕ). x % (p * 16)) whole
        ∙ add-mul-mod_self_right low (q / 16) (p * 16)
        ∙ mod-eq_of_lt small

hex_text_injective : (w n m : ℕ) → hex_text w n ≡ hex_text w m → n % 16 ^ w ≡ m % 16 ^ w
unfolding hex_text
hex_text_injective zero n m h = omega arith
hex_text_injective (suc w) n m h =
    let digit =
      hex_char_injective (n / 16 ^ w % 16) (m / 16 ^ w % 16) (omega arith) (omega arith) (cc) in
    let rest = hex_text_injective w n m (cc) in cc (mod-pow-suc w n, mod-pow-suc w m, digit, rest)

pub hex_text_exact : (n m : ℕ) → n < modulus → m < modulus → hex_text 64 n ≡ hex_text 64 m → n ≡ m
hex_text_exact n m hn hm e = omega (arith, hex_text_injective 64 n m e)
