-- ===== src/Session/Columns.antt =====
-- A map from identifiers to rows, turned into one map for each message.
use frost_tools.Prelude.{
  ℕ, zero, suc, ◌+◌, ◌<◌, ◌≤◌, ◌≡◌, refl, ap, ◌∙◌, Option, none, some, List, [], ◌∷◌, arith,
  PartialEq, Map, get, insert, get-insert, length, get_elem?, get_elem?-lt,
}

-- Every row has `n` entries.
abbrev pub HasWidth : {K V : Type 0} → ℕ → Map K (List V) → Type 0
HasWidth n [] = Unit
HasWidth n ((k, row) ∷ m) = (length row ≡ n) × HasWidth n m

-- The entry at column `i` of a row that may not be there.
abbrev pub entry : {V : Type 0} → Option (List V) → ℕ → Option V
entry none i = none
entry (some row) i = get_elem? row i

module _ {K V : Type 0} ⦃e : PartialEq K⦄ where
  -- `commitments.iter().map(|(id, c)| (*id, c[i])).collect()`; `none` is the panic of `c[i]`.
  unfoldable pub column : ℕ → Map K (List V) → Option (Map K V)
  column i [] = some []
  column i ((k, row) ∷ m) = elim (get_elem? row i) [
    | none ↦ none
    | some v ↦ elim (column i m) [ none ↦ none | some c ↦ some (insert k v c) ]
  ]

  -- The columns `i`, `i + 1`, … of `n` rounds: `(0..n).map(…).collect()` from `i` = 0.
  unfoldable pub columns : ℕ → ℕ → Map K (List V) → Option (List (Map K V))
  columns i zero m = some []
  columns i (suc n) m = elim (column i m) [
    | none ↦ none
    | some c ↦ elim (columns (suc i) n m) [ none ↦ none | some cs ↦ some (c ∷ cs) ]
  ]

  -- A column exists where all rows are long enough, and it holds the entries of its rows.
  pub column_lem :
      (i n : ℕ) (m : Map K (List V))
      → HasWidth n m
      → i < n
      → (c : Map K V) × (column i m ≡ some c) × ((k : K) → get c k ≡ entry (get m k) i)
  unfolding column get
  column_lem i n [] w h = ([], refl, λ k. refl)
  column_lem i n ((k, row) ∷ m) w h =
      let (v, ev) = get_elem?-lt row i (omega arith) in
      let (c, ec, at) = column_lem i n m w.1 h in
      (insert k v c, ground arith, λ j. ground (arith, get-insert k j v c, at j))

  pub columns_lem :
      (i n k : ℕ) (m : Map K (List V))
      → HasWidth n m
      → i + k ≤ n
      → (cs : List (Map K V)) × (columns i k m ≡ some cs)
        × (length cs ≡ k)
        × ((j : ℕ)
            → j < k
            → (c : Map K V) × (get_elem? cs j ≡ some c)
              × ((a : K) → get c a ≡ entry (get m a) (i + j)))
  unfolding columns
  columns_lem i n zero m w h = ([], refl, refl, λ j lt. absurd (omega arith))
  columns_lem i n (suc k) m w h =
      let (c, ec, at) = column_lem i n m w (omega arith) in
      let (cs, es, len, ats) = columns_lem (suc i) n k m w (omega arith) in
      (c ∷ cs, ground arith, ap suc len, pick c at cs ats)
    where
      pick :
          (c : Map K V)
          → ((a : K) → get c a ≡ entry (get m a) i)
          → (cs : List (Map K V))
          → ((j : ℕ)
              → j < k
              → (d : Map K V) × (get_elem? cs j ≡ some d)
                × ((a : K) → get d a ≡ entry (get m a) (suc i + j)))
          → (j : ℕ) → j < suc k
          → (d : Map K V) × (get_elem? (c ∷ cs) j ≡ some d)
            × ((a : K) → get d a ≡ entry (get m a) (i + j))
      pick c at cs ats zero lt = (c, refl, λ a. at a ∙ ap (entry (get m a)) (omega arith))
      pick c at cs ats (suc j) lt =
          let (d, ed, atd) = ats j (omega arith) in
          (d, ed, λ a. atd a ∙ ap (entry (get m a)) (omega arith))

  -- The maps `cs` are the columns of `m`: map `j` holds for each identifier its `j`-th entry.
  pub record AreColumns (n : ℕ) (m : Map K (List V)) (cs : List (Map K V)) : Type 0 where
    pub count : length cs ≡ n
    pub column_at :
        (j : ℕ)
        → j < n
        → (c : Map K V) × (get_elem? cs j ≡ some c) × ((k : K) → get c k ≡ entry (get m k) j)

  pub columns_all :
      (n : ℕ) (m : Map K (List V))
      → HasWidth n m
      → (cs : List (Map K V)) × (columns 0 n m ≡ some cs) × AreColumns n m cs
  columns_all n m w =
      let (cs, is, len, at) = columns_lem 0 n n m w (omega arith) in
      (
        cs,
        is,
        record {
          count = len;
          column_at = λ j lt.
              let (c, ec, atc) = at j lt in
              (c, ec, λ k. atc k ∙ ap (entry (get m k)) (omega arith));
        },
      )

  pub HasWidth-insert :
      (n : ℕ) (k : K) (row : List V) (m : Map K (List V))
      → HasWidth n m
      → length row ≡ n
      → HasWidth n (insert k row m)
  unfolding insert
  HasWidth-insert n k row [] w h = (h, tt)
  HasWidth-insert n k row ((j, r) ∷ m) w h = ground (arith, HasWidth-insert n k row m w.1 h)
