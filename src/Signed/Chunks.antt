-- ===== src/Signed/Chunks.antt =====
-- src/signed_file.c: `signed_file_receive_write` takes any chunk apart and always returns.
use mega65_expansion_board_i.Base.{
  ℕ, zero, suc, ◌+◌, ◌-◌, ◌^◌, ◌<◌, ◌≤◌, ◌≡◌, ◌⊎◌, inl, inr, refl, sym, ap, ◌∙◌, Bool, true, false,
  ◌&&◌, Option, some, List, [], ◌∷◌, ◌++◌, ◌==◌, leb, if◌then◌else◌, take, drop, length,
  length-append, nil_of_length, append-nil, append_assoc, take-append-drop, length-take,
  length-drop, arith, Bool-cases,
}
use mega65_expansion_board_i.Storage.{Storage, Appends}
use mega65_expansion_board_i.Signed.Block.{Crypto, IsSha, sig_block_size}
use mega65_expansion_board_i.Signed.Session.{Session, sub32, at_most}
use mega65_expansion_board_i.Signed.Receive
use mega65_expansion_board_i.Signed.Taking.{Header, limit, IsSplit, Taking, Goes, take_payload-Goes}

limit_signed : (h : Header) → h.candidate_signature ≡ true → limit h ≡ h.block_offset
limit_signed h e = rw e

limit-le : (h : Header) → IsSplit h → limit h ≤ h.total_length
limit-le h g = let e = g.split in omega arith

in_block_arith :
    (cand : Bool) (off total done np nb : ℕ)
    → (if cand then off else total) + (if cand then sig_block_size else 0) ≡ total
    → done ≡ np + nb
    → np ≤ (if cand then off else total)
    → (nb ≡ 0) ⊎ (np ≡ (if cand then off else total))
    → (cand && leb off done) ≡ true
    → (cand ≡ true) × (np ≡ (if cand then off else total)) × (total ≡ np + 256)
in_block_arith cand off total done np nb split d within order test = ground arith

in_payload_arith :
    (cand : Bool) (off total done np nb n : ℕ)
    → (if cand then off else total) + (if cand then sig_block_size else 0) ≡ total
    → done ≡ np + nb
    → np ≤ (if cand then off else total)
    → (nb ≡ 0) ⊎ (np ≡ (if cand then off else total))
    → np + nb + suc n ≤ total
    → (cand && leb off done) ≡ false
    → (nb ≡ 0) × (np < (if cand then off else total))
in_payload_arith cand off total done np nb n split d within order room test = ground arith

positive : (n : ℕ) → 0 < n → (n == 0) ≡ false
positive n h = ground arith

-- the size of a chunk: as much as there is room for
at_most_bounds :
    (room len : ℕ)
    → 0 < room
    → 0 < len
    → (0 < at_most room len) × (at_most room len ≤ len) × (at_most room len ≤ room)
at_most_bounds room len h l = ground arith

module _ {st : Storage} {k : Crypto} (ap' : Appends st) (sh : IsSha k) where
  take_block-Taking :
      (h : Header) (f : st.File) (p b xs : List ℕ) (s : Session st k)
      → Taking ap' sh h f p b s
      → length p ≡ limit h
      → length p + length b + length xs ≤ h.total_length
      → Taking ap' sh h f p (b ++ xs) (Receive.take_block st k xs s)
  unfolding Receive.take_block
  take_block-Taking h f p b xs s t full room =
      let len = length-append b xs in
      let done : s.rx.done ≡ length p + length b = t.done in
      let count : s.rx.block_done ≡ length b = t.block_done in
      record {
        head = t.head;
        opened = t.opened;
        file = t.file;
        live = t.live;
        written = t.written;
        kept = ap (λ c. c ++ xs) t.kept;
        block_done = omega arith;
        done = omega arith;
        hashed = t.hashed;
        within = t.within;
        below = omega arith;
        in_order = inr full;
      }

  -- The loop has returned: every byte is in the payload or in the block, or the transfer is rejected.
  abbrev pub Progress : Header → st.File → List ℕ → Option (Bool × Session st k) → Type 0
  Progress h f all o =
      (p : List ℕ) × (b : List ℕ) × (r : Bool × Session st k) × (o ≡ some r)
      × (p ++ b ≡ all)
      × Goes ap' sh h f p b r

  module _ (h : Header) (f : st.File) (good : IsSplit h) where
    -- where the next byte belongs
    in_block_facts :
        (p b : List ℕ) (s : Session st k)
        → Taking ap' sh h f p b s
        → (s.rx.candidate_signature && leb s.rx.block_offset s.rx.done) ≡ true
        → (h.candidate_signature ≡ true) × (length p ≡ limit h) × (h.total_length ≡ length p + 256)
    in_block_facts p b s t test =
        let test' =
          sym (ap (λ g. g.candidate_signature && leb g.block_offset s.rx.done) t.head) ∙ test in
        in_block_arith h.candidate_signature h.block_offset h.total_length s.rx.done (length p)
          (length b) good.split t.done t.within t.in_order test'

    in_payload_facts :
        (p b : List ℕ) (s : Session st k) (n : ℕ)
        → Taking ap' sh h f p b s
        → length p + length b + suc n ≤ h.total_length
        → (s.rx.candidate_signature && leb s.rx.block_offset s.rx.done) ≡ false
        → (length b ≡ 0) × (length p < limit h)
    in_payload_facts p b s n t room test =
        let test' =
          sym (ap (λ g. g.candidate_signature && leb g.block_offset s.rx.done) t.head) ∙ test in
        in_payload_arith h.candidate_signature h.block_offset h.total_length s.rx.done (length p)
          (length b) n good.split t.done t.within t.in_order room test'

    -- the bytes of a chunk, and those left, are the bytes before
    regroup : (p b xs : List ℕ) (n : ℕ) → (p ++ (b ++ take n xs)) ++ drop n xs ≡ (p ++ b) ++ xs
    regroup p b xs n =
        append_assoc p (b ++ take n xs) (drop n xs)
        ∙ ap (λ q. p ++ q)
            (append_assoc b (take n xs) (drop n xs) ∙ ap (λ q. b ++ q) (take-append-drop n xs))
        ∙ sym (append_assoc p b xs)

    regroup_payload :
        (p b xs : List ℕ) (n : ℕ) → b ≡ [] → ((p ++ take n xs) ++ []) ++ drop n xs ≡ (p ++ b) ++ xs
    regroup_payload p b xs n empty =
        ap (λ q. q ++ drop n xs) (append-nil (p ++ take n xs))
        ∙ append_assoc p (take n xs) (drop n xs)
        ∙ ap (λ q. p ++ q) (take-append-drop n xs)
        ∙ sym (ap (λ q. (p ++ q) ++ xs) empty ∙ ap (λ q. q ++ xs) (append-nil p))

    sub32_room : (a b : ℕ) → b ≤ a → a < 2 ^ 32 → sub32 a b ≡ a - b
    sub32_room a b le small = omega arith

    pub write_loop-Progress :
        (fuel : ℕ) (xs p b : List ℕ) (s : Session st k)
        → length xs < fuel
        → Taking ap' sh h f p b s
        → length p + length b + length xs ≤ h.total_length
        → Progress h f ((p ++ b) ++ xs) (Receive.write_loop st k fuel xs s)
    unfolding Receive.write_loop
    write_loop-Progress zero xs p b s enough t room = absurd (omega arith)
    write_loop-Progress (suc fuel) [] p b s enough t room =
        (p, b, (true, s), refl, sym (append-nil (p ++ b)), inl (refl, t))
    write_loop-Progress (suc fuel) (x ∷ xs) p b s enough t room =
        elim (Bool-cases (s.rx.candidate_signature && leb s.rx.block_offset s.rx.done)) [
          | inl test ↦
              let (cand, full, total) = in_block_facts p b s t test in
              let count : s.rx.block_done ≡ length b = t.block_done in
              let left : sub32 sig_block_size s.rx.block_done ≡ 256 - length b = omega arith in
              let want : ℕ = at_most (sub32 sig_block_size s.rx.block_done) (length (x ∷ xs)) in
              let (pos, le, _) =
                at_most_bounds (sub32 sig_block_size s.rx.block_done) (length (x ∷ xs))
                  (omega arith) (omega arith) in
              let taken = length-take want (x ∷ xs) in
              let rest = length-drop want (x ∷ xs) in
              let more = length-append b (take want (x ∷ xs)) in
              let t' = take_block-Taking h f p b (take want (x ∷ xs)) s t full (omega arith) in
              let (p', b', r, run, all, goes) =
                write_loop-Progress fuel (drop want (x ∷ xs)) p (b ++ take want (x ∷ xs)) _
                  (omega arith) t' (omega arith) in
              rw test (p', b', r, run, all ∙ regroup p b (x ∷ xs) want, goes)
          | inr test ↦
              let (none_kept, below) = in_payload_facts p b s (length xs) t (omega arith) test in
              let empty : b ≡ [] = nil_of_length b none_kept in
              let t0 : Taking ap' sh h f p [] s = rw empty at t in
              let at_limit : (if s.rx.candidate_signature
                    then s.rx.block_offset
                    else s.rx.total_length)
                  ≡ limit h =
                ap limit t.head in
              let done : s.rx.done ≡ length p + 0 = t0.done in
              let fits = good.fits in
              let cap = limit-le h good in
              let left = sub32_room (limit h) (length p) (omega arith) (omega arith) in
              let lhs : sub32
                    (if s.rx.candidate_signature then s.rx.block_offset else s.rx.total_length)
                    s.rx.done
                  ≡ limit h - length p =
                rw (at_limit, done)
                  (sub32_room (limit h) (length p + 0) (omega arith) (omega arith) ∙ omega arith) in
              let want : ℕ =
                at_most
                  (sub32 (if s.rx.candidate_signature then s.rx.block_offset else s.rx.total_length)
                    s.rx.done)
                  (length (x ∷ xs)) in
              let (pos, le, within) =
                at_most_bounds
                  (sub32 (if s.rx.candidate_signature then s.rx.block_offset else s.rx.total_length)
                    s.rx.done)
                  (length (x ∷ xs)) (omega arith) (omega arith) in
              let some_want : (want == 0) ≡ false = positive want pos in
              let taken = length-take want (x ∷ xs) in
              let rest = length-drop want (x ∷ xs) in
              let more = length-append p (take want (x ∷ xs)) in
              elim (take_payload-Goes ap' sh h f p (take want (x ∷ xs)) s t0 (omega arith) cap) [
                | inl (fine, t') ↦
                    let (p', b', r, run, bytes, goes) =
                      write_loop-Progress fuel (drop want (x ∷ xs)) (p ++ take want (x ∷ xs)) [] _
                        (omega arith) t' (omega arith) in
                    simp (test, some_want, fine)
                      (p', b', r, run, bytes ∙ regroup_payload p b (x ∷ xs) want empty, goes)
                | inr (stopped, rejected) ↦
                    simp (test, some_want, stopped)
                      (
                        (p ++ b) ++ (x ∷ xs),
                        [],
                        (false, (Receive.take_payload st k (take want (x ∷ xs)) s).1),
                        refl,
                        append-nil _,
                        inr (refl, rejected),
                      )
              ]
        ]
