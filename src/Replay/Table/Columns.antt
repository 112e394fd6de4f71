-- ===== src/Replay/Table/Columns.antt =====
-- The columns of a report's table, and the table of reports with the same roles.
use adaptive_context_residen.Common.{
  ℕ, ◌≡◌, refl, sym, ap, ◌∙◌, String, ◌<>◌, Bool, true, Option, none, some, is_some, List, [], ◌∷◌,
  map, arith, length, All, Eq, =?_refl, string_eq, Option-cases, inl, inr,
}
use adaptive_context_residen.Common.Dict.{Dict, keys, lookup, insert, elem, lookup_of_elem-keys}
use adaptive_context_residen.Common.Result.{ok, item}
use adaptive_context_residen.Common.Sort.{sort, insert_sorted}
use adaptive_context_residen.Floats.{FloatOps}
use adaptive_context_residen.Index.Defs.{key_eq}
use adaptive_context_residen.Replay.Stats.{RoleStats}
use adaptive_context_residen.Replay.Run.{Report}
use adaptive_context_residen.Replay.Table.{
  str_lt, Cell, Row, role_cells, roles_cells, sorted_items, as_row, cells, body, markdown_table,
}

module _ {K V : Type 0} ⦃e : Eq K⦄ where
  -- The keys after a write depend on the keys before it only.
  keys-insert :
      {W : Type 0} (k : K) (v : V) (w : W) (d : Dict K V) (d' : Dict K W)
      → keys d ≡ keys d'
      → keys (insert k v d) ≡ keys (insert k w d')
  unfolding insert
  keys-insert k v w [] [] h = refl
  keys-insert k v w [] ((j, y) ∷ d') h = absurd (ground arith)
  keys-insert k v w ((i, x) ∷ d) [] h = absurd (ground arith)
  keys-insert k v w ((i, x) ∷ d) ((j, y) ∷ d') h = ground (arith, keys-insert k v w d d')

module _ {A B : Type 0} (f : A → B) (lt : A → A → Bool) (lt' : B → B → Bool) where
  map-insert_sorted :
      ((x y : A) → lt' (f x) (f y) ≡ lt x y)
      → (x : A) (xs : List A) → map f (insert_sorted lt x xs) ≡ insert_sorted lt' (f x) (map f xs)
  unfolding insert_sorted
  map-insert_sorted same x [] = refl
  map-insert_sorted same x (y ∷ ys) = ground (arith, same y x, map-insert_sorted same x ys)

  map-sort :
      ((x y : A) → lt' (f x) (f y) ≡ lt x y)
      → (xs : List A) → map f (sort lt xs) ≡ sort lt' (map f xs)
  unfolding sort
  map-sort same [] = refl
  map-sort same (x ∷ xs) =
      map-insert_sorted same x (sort lt xs) ∙ ap (insert_sorted lt' (f x)) (map-sort same xs)

module _ ⦃fl : FloatOps⦄ where
  open fl use {F}

  -- What the columns of a report depend on: its roles, and whether they count violations.
  abbrev pub signature : Dict String RoleStats → List (String × Bool)
  signature = map (λ x. (x.0, is_some x.1.slo_viol))

  sort-signature :
      (d d' : Dict String RoleStats)
      → signature d ≡ signature d'
      → signature (sorted_items d) ≡ signature (sorted_items d')
  unfolding sorted_items
  sort-signature d d' h =
      map-sort (λ x. (x.0, is_some x.1.slo_viol)) _ (λ a b. str_lt a.0 b.0) (λ x y. refl) d
      ∙ ap (sort (λ a b. str_lt a.0 b.0)) h
      ∙ sym (map-sort (λ x. (x.0, is_some x.1.slo_viol)) _ _ (λ x y. refl) d')

  item-ok : (c : String) (row : Row) (x : Cell) → lookup c row ≡ some x → item c row ≡ ok x
  item-ok c row x found = rw (found, item) refl

  cells_total :
      (cols : List String) (row : Row)
      → All (λ c. elem c (keys row) ≡ true) cols
      → (xs : List Cell) × (cells cols row ≡ ok xs) × (length xs ≡ length cols)
  unfolding cells
  cells_total [] row a = ([], refl, refl)
  cells_total (c ∷ cols) row (there, a) =
      let (x, found) = lookup_of_elem-keys c row there in
      let (xs, read, same) = cells_total cols row a in
      rw (item-ok c row x found, read, cells) (x ∷ xs, refl, omega (arith, same))

  All-elem-cons :
      (k : String) (ks cols : List String)
      → All (λ c. elem c ks ≡ true) cols
      → All (λ c. elem c (k ∷ ks) ≡ true) cols
  All-elem-cons k ks [] a = tt
  All-elem-cons k ks (c ∷ cols) (there, a) = (ground arith, All-elem-cons k ks cols a)

  All-elem_self : (ks : List String) → All (λ c. elem c ks ≡ true) ks
  All-elem_self [] = tt
  All-elem_self (k ∷ ks) = (ground (arith, =?_refl k), All-elem-cons k ks ks (All-elem_self ks))

  module _ (round_to : F → ℕ → F) where
    keys-role_cells :
        (role : String) (m m' : RoleStats) (row row' : Row)
        → is_some m.slo_viol ≡ is_some m'.slo_viol
        → keys row ≡ keys row'
        → keys (role_cells round_to role m row) ≡ keys (role_cells round_to role m' row')
    unfolding role_cells
    keys-role_cells role m m' row row' h k =
        let k2 =
          keys-insert (role <> "_ttft_p95") _ _ _ _
            (keys-insert (role <> "_ttft_p50") _ _ row row' k) in
        elim (Option-cases m.slo_viol) [
          | inl n ↦ elim (Option-cases m'.slo_viol) [
            | inl n' ↦ rw (n, n', role_cells) k2
            | inr (x', n') ↦ absurd (ground arith)
          ]
          | inr (x, n) ↦ elim (Option-cases m'.slo_viol) [
            | inl n' ↦ absurd (ground arith)
            | inr (x', n') ↦ rw (n, n', role_cells) (keys-insert (role <> "_slo_viol") _ _ _ _ k2)
          ]
        ]

    keys-roles_cells :
        (d d' : Dict String RoleStats) (row row' : Row)
        → signature d ≡ signature d'
        → keys row ≡ keys row'
        → keys (roles_cells round_to d row) ≡ keys (roles_cells round_to d' row')
    unfolding roles_cells
    keys-roles_cells [] [] row row' h k = k
    keys-roles_cells [] (x ∷ d') row row' h k = absurd (ground arith)
    keys-roles_cells (x ∷ d) [] row row' h k = absurd (ground arith)
    keys-roles_cells ((r, m) ∷ d) ((r', m') ∷ d') row row' h k =
        let same : r ≡ r' = ground arith in
        let flag : is_some m.slo_viol ≡ is_some m'.slo_viol = ground arith in
        let rest : signature d ≡ signature d' = ground arith in
        rw (← same) (keys-roles_cells d d' _ _ rest (keys-role_cells r m m' row row' flag k))

    keys-as_row :
        (a b : Report)
        → signature a.per_role ≡ signature b.per_role
        → keys (as_row round_to a) ≡ keys (as_row round_to b)
    unfolding as_row
    keys-as_row a b h =
        keys-roles_cells (sorted_items a.per_role) (sorted_items b.per_role) _ _
          (sort-signature a.per_role b.per_role h) refl

    body_total :
        (cols : List String) (rs : List Report)
        → All (λ r. keys (as_row round_to r) ≡ cols) rs
        → (lines : List (List Cell)) × (body round_to cols rs ≡ ok lines)
          × (length lines ≡ length rs)
          × All (λ l. length l ≡ length cols) lines
    unfolding body
    body_total cols [] a = ([], refl, refl, tt)
    body_total cols (r ∷ rs) (same, a) =
        let (line, read, wide) =
          cells_total cols (as_row round_to r) (rw same (All-elem_self cols)) in
        let (lines, rest, many, all) = body_total cols rs a in
        rw (read, rest, body) (line ∷ lines, refl, omega (arith, many), (wide, all))

    -- A table with a line for each report, and all its lines as long as the header.
    abbrev pub IsTable : List Report → Option (List String × List (List Cell)) → Type 0
    IsTable rs none = length rs ≡ 0
    IsTable rs (some (cols, lines)) =
        (length lines ≡ length rs) × All (λ l. length l ≡ length cols) lines

    All-keys-as_row :
        (r : Report) (rs : List Report)
        → All (λ x. signature x.per_role ≡ signature r.per_role) rs
        → All (λ x. keys (as_row round_to x) ≡ keys (as_row round_to r)) rs
    All-keys-as_row r [] a = tt
    All-keys-as_row r (x ∷ rs) (same, a) = (keys-as_row x r same, All-keys-as_row r rs a)

    -- Reports of the same roles make a table.
    pub markdown_table_total :
        (rs : List Report) (sig : List (String × Bool))
        → All (λ x. signature x.per_role ≡ sig) rs
        → (table : Option (List String × List (List Cell))) × (markdown_table round_to rs
            ≡ ok table)
          × IsTable rs table
    unfolding markdown_table
    markdown_table_total [] sig a = (none, refl, refl)
    markdown_table_total (r ∷ rs) sig (same, a) =
        let (lines, read, many, all) =
          body_total (keys (as_row round_to r)) (r ∷ rs)
            (refl, All-keys-as_row r rs (rw (← same) at a)) in
        rw (read, markdown_table) (some (keys (as_row round_to r), lines), refl, (many, all))
