-- ===== src/Board/Matches.antt =====
-- src/core_filter.c: what `core_matches_board` decides.
use mega65_expansion_board_i.Base.{
  ℕ, ◌-◌, ◌≡◌, ◌≢◌, ◌↔◌, ◌⊎◌, inl, inr, refl, true, false, not, ◌||◌, Option, none, some, List,
  ◌==◌, arith, Bool-cases,
}
use mega65_expansion_board_i.Board.Filter.{
  CoreNames, contains_model, hint_matches, core_board_hint_from_name, core_matches_board,
}
use mega65_expansion_board_i.Board.Tokens.{Names, contains_model_iff}

contains_model_refutes :
    (s : List ℕ) (b : ℕ) → (b ≡ 3) ⊎ (b ≡ 6) → contains_model s b ≡ false → ¬ Names s b
contains_model_refutes s b is h n = let e = (contains_model_iff s b is).1 n in ground arith

contains_model_refuted :
    (s : List ℕ) (b : ℕ) → (b ≡ 3) ⊎ (b ≡ 6) → ¬ Names s b → contains_model s b ≡ false
contains_model_refuted s b is h = elim (Bool-cases (contains_model s b)) [
  | inl e ↦ absurd (h ((contains_model_iff s b is).0 e))
  | inr e ↦ e
]

-- Every core, whatever it calls itself and whatever its file's name, is offered to one at least of
-- the boards R3 and R6.
pub core_matches_board-some :
    (cf : Option CoreNames) (path : List ℕ)
    → (core_matches_board cf path 3 || core_matches_board cf path 6) ≡ true
unfolding core_matches_board hint_matches core_board_hint_from_name
core_matches_board-some none path = ground arith
core_matches_board-some (some c) path = ground arith

-- Why a core is for the board `b`, of the boards 3 and 6: its model id says so; or it has no such id
-- and its model names the board; or the model names neither, and the path does not name the other
-- board alone.
pub data IsFor (c : CoreNames) (path : List ℕ) (b : ℕ) : Type 0 where
  by_id : c.model_id ≡ b → IsFor c path b
  by_model : c.model_id ≢ 3 → c.model_id ≢ 6 → Names c.model b → IsFor c path b
  by_path :
      c.model_id ≢ 3
      → c.model_id ≢ 6
      → ¬ Names c.model 3
      → ¬ Names c.model 6
      → ¬ Names path (9 - b) ⊎ Names path b
      → IsFor c path b

other_board : {b : ℕ} → (b ≡ 3) ⊎ (b ≡ 6) → (9 - b ≡ 3) ⊎ (9 - b ≡ 6)
other_board (inl is) = inr (omega arith)
other_board (inr is) = inl (omega arith)

hint_matches-or :
    (path : List ℕ) (b : ℕ)
    → (b ≡ 3) ⊎ (b ≡ 6)
    → hint_matches path b ≡ (not (contains_model path (9 - b)) || contains_model path b)
unfolding hint_matches core_board_hint_from_name
hint_matches-or path b (inl is) = rw is (ground arith)
hint_matches-or path b (inr is) = rw is (ground arith)

module _ (c : CoreNames) (path : List ℕ) {b : ℕ} (is : (b ≡ 3) ⊎ (b ≡ 6)) where
  matches-IsFor : core_matches_board (some c) path b ≡ true → IsFor c path b
  unfolding core_matches_board
  matches-IsFor h = elim (Bool-cases (c.model_id == 3 || c.model_id == 6)) [
    | inl id ↦ by_id (ground arith)
    | inr no_id ↦
        let n3 : c.model_id ≢ 3 = ground arith in
        let n6 : c.model_id ≢ 6 = ground arith in
        elim (Bool-cases (contains_model c.model 3 || contains_model c.model 6)) [
          | inl named ↦ by_model n3 n6 ((contains_model_iff c.model b is).0 (ground arith))
          | inr unnamed ↦
              by_path n3 n6 (contains_model_refutes c.model 3 (inl refl) (ground arith))
                (contains_model_refutes c.model 6 (inr refl) (ground arith))
                (elim (Bool-cases (contains_model path b)) [
                  | inl mine ↦ inr ((contains_model_iff path b is).0 mine)
                  | inr gone ↦
                      let hint = hint_matches-or path b is in
                      inl (contains_model_refutes path (9 - b) (other_board is) (ground arith))
                ])
        ]
  ]

  IsFor-matches : IsFor c path b → core_matches_board (some c) path b ≡ true
  unfolding core_matches_board
  IsFor-matches (by_id e) = ground arith
  IsFor-matches (by_model n3 n6 named) =
      let e = (contains_model_iff c.model b is).1 named in ground arith
  IsFor-matches (by_path n3 n6 m3 m6 (inl other)) =
      let e3 = contains_model_refuted c.model 3 (inl refl) m3 in
      let e6 = contains_model_refuted c.model 6 (inr refl) m6 in
      let o = contains_model_refuted path (9 - b) (other_board is) other in
      let hint = hint_matches-or path b is in ground arith
  IsFor-matches (by_path n3 n6 m3 m6 (inr mine)) =
      let e3 = contains_model_refuted c.model 3 (inl refl) m3 in
      let e6 = contains_model_refuted c.model 6 (inr refl) m6 in
      let o = (contains_model_iff path b is).1 mine in
      let hint = hint_matches-or path b is in ground arith

  -- For the boards 3 and 6, `core_matches_board` accepts a core exactly if it is for the board: by its
  -- model id; or by the name in its model, where the id is another; or, where neither tells, unless
  -- its path names the other board alone. A text names a board by the letter and the digit as a word
  -- of their own, or by the machine's name in one of its two spellings.
  pub core_matches_board_iff : (core_matches_board (some c) path b ≡ true) ↔ IsFor c path b
  core_matches_board_iff = (matches-IsFor, IsFor-matches)
