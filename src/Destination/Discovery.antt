-- ===== src/Destination/Discovery.antt =====
-- `discover_runs` of `src/airgap_sync/destination/incoming.py`. `parse_transport_filename` is a parameter,
-- `none` where it raises, and so is the order of texts.
use airgap_sync.Base.{
  Bool, List, Option, String, [], ap, arith, eq_iff, false, if◌then◌else◌, nat_eq, none, not,
  option_eq, pair_eq, refl, some, string_eq, true, ◌&&◌, ◌==◌, ◌||◌, ◌∙◌, ◌∷◌, ◌≡◌,
}
use airgap_sync.Base.Rows.{exists_row}

pub record Entry : Type 0 where
  pub name : String
  pub is_file : Bool

-- A text goes where it belongs, once: sorted(set(...)).
abbrev pub insert_id : (String → String → Bool) → String → List String → List String
insert_id before id [] = id ∷ []
insert_id before id (x ∷ xs) =
    let rest = insert_id before id xs in
    if id == x then x ∷ xs else if before id x then id ∷ x ∷ xs else x ∷ rest

abbrev pub candidate : Option (String × String) → Option String
candidate none = none
candidate (some (run_id, logical)) = if logical == "manifest.json" then some run_id else none

abbrev pub found_id : (String → Option (String × String)) → Entry → Option String
found_id parse e = if e.is_file then candidate (parse e.name) else none

abbrev add_found : (String → String → Bool) → Option String → List String → List String
add_found before none ids = ids
add_found before (some id) ids = insert_id before id ids

unfoldable pub collect_runs :
    (String → String → Bool) → (String → Option (String × String)) → List Entry → List String
collect_runs before parse [] = []
collect_runs before parse (e ∷ es) =
    add_found before (found_id parse e) (collect_runs before parse es)

-- `none`: the directory does not exist.
unfoldable pub discover_runs :
    (String → String → Bool)
    → (String → Option (String × String))
    → Option (List Entry)
    → List String
unfolding collect_runs
discover_runs before parse none = []
discover_runs before parse (some entries) = collect_runs before parse entries

-- The entry is a file whose name is the transport name of the run's manifest.
abbrev pub names_run : (String → Option (String × String)) → String → Entry → Bool
names_run parse id e = e.is_file && parse e.name == some (id, "manifest.json")

abbrev pub entries_of : Option (List Entry) → List Entry
entries_of none = []
entries_of (some entries) = entries

-- Each text differs from the next and stands before it; `ascending_from` starts with one more.
abbrev pub ascending_from : (String → String → Bool) → String → List String → Bool
ascending_from before x [] = true
ascending_from before x (y ∷ ys) = before x y && not (x == y) && ascending_from before y ys

abbrev pub ascending : (String → String → Bool) → List String → Bool
ascending before [] = true
ascending before (x ∷ xs) = ascending_from before x xs

module _ (before : String → String → Bool) where
  insert_id-exists :
      (id k : String) (xs : List String)
      → exists_row (λ x. x == k) (insert_id before id xs) ≡ (id == k || exists_row (λ x. x == k) xs)
  insert_id-exists id k [] = ground arith
  insert_id-exists id k (x ∷ xs) =
      ground (arith, insert_id-exists id k xs, eq_iff id x, eq_iff id k, eq_iff x k)

  module _ (total : (a b : String) → (before a b || before b a || a == b) ≡ true) where
    insert_id-ascending_from :
        (x id : String) (xs : List String)
        → before x id ≡ true
        → (x == id) ≡ false
        → ascending_from before x xs ≡ true
        → ascending_from before x (insert_id before id xs) ≡ true
    insert_id-ascending_from x id [] h d a = ground (arith, h, d)
    insert_id-ascending_from x id (y ∷ ys) h d a =
        ground
          (arith, h, d, a, insert_id-ascending_from y id ys, total id y, eq_iff id y, eq_iff y id)

    insert_id-ascending :
        (id : String) (xs : List String)
        → ascending before xs ≡ true
        → ascending before (insert_id before id xs) ≡ true
    insert_id-ascending id [] a = refl
    insert_id-ascending id (x ∷ xs) a =
        ground (arith, a, insert_id-ascending_from x id xs, total id x, eq_iff id x, eq_iff x id)

    collect_runs-ascending :
        (parse : String → Option (String × String)) (es : List Entry)
        → ascending before (collect_runs before parse es) ≡ true
    unfolding collect_runs
    collect_runs-ascending parse [] = refl
    collect_runs-ascending parse (e ∷ es) =
        go (collect_runs before parse es) (collect_runs-ascending parse es) (found_id parse e)
      where
        go :
            (ids : List String)
            → ascending before ids ≡ true
            → (o : Option String) → ascending before (add_found before o ids) ≡ true
        go ids a none = a
        go ids a (some id) = insert_id-ascending id ids a

-- Adding what an entry gives adds its run, where it names one.
add_found-exists :
    (before : String → String → Bool) (parse : String → Option (String × String)) (id : String)
    (e : Entry) (ids : List String)
    → exists_row (λ x. x == id) (add_found before (found_id parse e) ids)
      ≡ (names_run parse id e || exists_row (λ x. x == id) ids)
add_found-exists before parse id e ids = go e.is_file (parse e.name)
  where
    go :
        (file : Bool) (o : Option (String × String))
        → exists_row (λ x. x == id) (add_found before (if file then candidate o else none) ids)
          ≡ ((file && o == some (id, "manifest.json")) || exists_row (λ x. x == id) ids)
    go false o = refl
    go true none = refl
    go true (some (run_id, logical)) = ground (arith, insert_id-exists before run_id id ids)

collect_runs-exists :
    (before : String → String → Bool) (parse : String → Option (String × String)) (id : String)
    (es : List Entry)
    → exists_row (λ x. x == id) (collect_runs before parse es) ≡ exists_row (names_run parse id) es
unfolding collect_runs
collect_runs-exists before parse id [] = refl
collect_runs-exists before parse id (e ∷ es) =
    add_found-exists before parse id e (collect_runs before parse es)
    ∙ ap (λ b. names_run parse id e || b) (collect_runs-exists before parse id es)

-- Where the order of texts decides any two that differ: a run is discovered exactly when a file of the
-- directory has the transport name of its manifest, none where there is no directory; and each
-- discovered run differs from the next and stands before it, whatever the order of the entries.
pub discover_runs-exists :
    (before : String → String → Bool) (parse : String → Option (String × String))
    (listing : Option (List Entry))
    → ((a b : String) → (before a b || before b a || a == b) ≡ true)
    → ((id : String)
        → exists_row (λ x. x == id) (discover_runs before parse listing)
          ≡ exists_row (names_run parse id) (entries_of listing))
      × (ascending before (discover_runs before parse listing) ≡ true)
unfolding discover_runs
discover_runs-exists before parse none total = (λ id. refl, refl)
discover_runs-exists before parse (some es) total =
    (λ id. collect_runs-exists before parse id es, collect_runs-ascending before total parse es)
