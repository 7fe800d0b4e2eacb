-- ===== src/Destination/Ddl.antt =====
-- The quoting and reading of an identifier, src/airgap_sync/destination/mysql.py and src/airgap_sync/destination/ddl.py. A text is the list of its
-- characters' codes.
pub mod RoundTrip
use airgap_sync.Base.{
  Bool, List, Option, [], false, if◌then◌else◌, length, ltb, nat_eq, none, option_eq, some,
  string_eq, true, ℕ, ◌++◌, ◌==◌, ◌∷◌,
}

-- "`"
abbrev pub backtick : ℕ
backtick = 96

-- name.replace("`", "``")
unfoldable pub doubled : List ℕ → List ℕ
doubled [] = []
doubled (c ∷ cs) =
    let rest = doubled cs in if c == backtick then backtick ∷ backtick ∷ rest else c ∷ rest

-- `quote_identifier`: an empty or a long name raises.
unfoldable pub quote_identifier : List ℕ → Option (List ℕ)
unfolding doubled
quote_identifier name =
    if length name == 0
    then none
    else if ltb 64 (length name)
    then none
    else some (backtick ∷ doubled name ++ (backtick ∷ []))

abbrev with_char : ℕ → Option (List ℕ × List ℕ) → Option (List ℕ × List ℕ)
with_char c none = none
with_char c (some (name, rest)) = some (c ∷ name, rest)

-- The loop after the opening backtick: the name, and the text after the closing one. `held` says that
-- the character before was a backtick whose meaning the next character decides.
unfoldable pub quoted_at : Bool → List ℕ → Option (List ℕ × List ℕ)
quoted_at false [] = none
quoted_at true [] = some ([], [])
quoted_at false (c ∷ cs) =
    let held = quoted_at true cs in
    let plain = quoted_at false cs in if c == backtick then held else with_char c plain
quoted_at true (c ∷ cs) =
    let plain = quoted_at false cs in
    if c == backtick then with_char backtick plain else some ([], c ∷ cs)

-- The longest run of characters that `_UNQUOTED` matches.
unfoldable pub unquoted_at : (ℕ → Bool) → List ℕ → List ℕ × List ℕ
unquoted_at is_word [] = ([], [])
unquoted_at is_word (c ∷ cs) =
    let rest = unquoted_at is_word cs in if is_word c then (c ∷ rest.0, rest.1) else ([], c ∷ cs)

abbrev nonempty : List ℕ × List ℕ → Option (List ℕ × List ℕ)
nonempty ([], rest) = none
nonempty (c ∷ cs, rest) = some (c ∷ cs, rest)

-- `_identifier_at`, on the text from `start` on: the name and what follows it; `none` raises.
unfoldable pub identifier_at : (ℕ → Bool) → List ℕ → Option (List ℕ × List ℕ)
unfolding quoted_at unquoted_at
identifier_at is_word [] = none
identifier_at is_word (c ∷ cs) =
    if c == backtick then quoted_at false cs else nonempty (unquoted_at is_word (c ∷ cs))
