-- ===== src/Tests/Grid.antt =====
-- A list on the screen that obeys the laws.
use arpwith_mfc.Base.{
  ℕ, zero, suc, ◌+◌, ◌-◌, ◌<◌, ◌≡◌, ◌≢◌, refl, ◌⊎◌, inl, inr, List, [], Option, none, some,
  if◌then◌else◌, ltb, ◌==◌, Bool-cases, Option-cases, arith,
}
use arpwith_mfc.Layers.Manager.{same_text}
use arpwith_mfc.Text.Same.{same_text-eq}
use arpwith_mfc.Screen.{ListControl, Laws}

-- A list on the screen: its numbers of rows and columns, and its cells.
pub record Grid : Type 0 where
  pub rows : ℕ
  pub columns : ℕ
  pub cells : ℕ → ℕ → List ℕ

unfoldable pub find_below : (ℕ → ℕ → List ℕ) → ℕ → List ℕ → Option ℕ
find_below cells zero t = none
find_below cells (suc n) t = elim (find_below cells n t) [
  | some i ↦ some i
  | none ↦ if same_text (cells n 0) t then some n else none
]

abbrev inserted_cells : (ℕ → ℕ → List ℕ) → ℕ → List ℕ → ℕ → ℕ → List ℕ
inserted_cells cells i t k l =
    if ltb k i then cells k l else if k == i then (if l == 0 then t else []) else cells (k - 1) l

abbrev set_cells : (ℕ → ℕ → List ℕ) → ℕ → ℕ → List ℕ → ℕ → ℕ → List ℕ
set_cells cells i j t k l = if k == i then (if l == j then t else cells k l) else cells k l

abbrev pub grid : ListControl
grid = record {
  Control = Grid;
  get_item_count = λ g. g.rows;
  get_column_count = λ g. g.columns;
  get_item_text = λ g. g.cells;
  insert_column = λ g i t. record g { columns = suc g.columns };
  insert_item = λ g i t. record g { rows = suc g.rows; cells = inserted_cells g.cells i t };
  set_item_text = λ g i j t. record g { cells = set_cells g.cells i j t };
  delete_item = λ g i. record g {
    rows = g.rows - 1;
    cells = λ k l. if ltb k i then g.cells k l else g.cells (k + 1) l;
  };
  delete_all_items = λ g. record g { rows = 0 };
  find_item = λ g t. find_below g.cells g.rows t;
}

none-some : {A : Type 0} {i : ℕ} → (none ≡ some i) → A
none-some e = cc

find_below-found :
    (cells : ℕ → ℕ → List ℕ) (n : ℕ) (t : List ℕ) (i : ℕ)
    → find_below cells n t ≡ some i
    → (i < n) × (cells i 0 ≡ t)
unfolding find_below
find_below-found cells zero t i e = cc
find_below-found cells (suc n) t i e = elim (Option-cases (find_below cells n t)) [
  | inr (j, f) ↦
      let (h, g) = find_below-found cells n t j f in
      let e' : some j ≡ some i = rw f at e in
      let same : j ≡ i = cc in (omega (arith, same, h), rw (← same) g)
  | inl f ↦ elim (Bool-cases (same_text (cells n 0) t)) [
    | inl y ↦
        let e' : some n ≡ some i = rw (f, y) at e in
        let same : n ≡ i = cc in (omega (arith, same), rw (← same) (same_text-eq (cells n 0) t y))
    | inr z ↦ none-some (rw (f, z) at e)
  ]
]

set_cells-other :
    (cells : ℕ → ℕ → List ℕ) (i j : ℕ) (t : List ℕ) (k l : ℕ)
    → (k ≢ i) ⊎ (l ≢ j)
    → set_cells cells i j t k l ≡ cells k l
set_cells-other cells i j t k l (inl h) = ground arith
set_cells-other cells i j t k l (inr h) = ground arith

pub grid-Laws : Laws grid
grid-Laws = record {
  found = λ g t i e. find_below-found g.cells g.rows t i e;
  inserted = λ g t. ground arith;
  inserted_other = λ g t i j h. ground arith;
  inserted_count = λ g t. refl;
  inserted_columns = λ g i t. refl;
  column_inserted = λ g i t. refl;
  text_set = λ g i j t h k. ground arith;
  text_other = λ g i j t k l h. set_cells-other g.cells i j t k l h;
  text_count = λ g i j t. refl;
  text_columns = λ g i j t. refl;
  cleared = λ g. refl;
  cleared_columns = λ g. refl;
  deleted_count = λ g i h. omega arith;
  deleted_before = λ g i k l h b. ground arith;
  deleted_behind = λ g i k l h b. ground arith;
}
