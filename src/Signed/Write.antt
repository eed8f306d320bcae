-- ===== src/Signed/Write.antt =====
-- src/signed_file.c: `signed_file_receive_begin` and `signed_file_receive_write` against the
-- transfer they take apart.
use mega65_expansion_board_i.Base.{
  ℕ, ◌+◌, ◌%◌, ◌^◌, ◌<◌, ◌≤◌, ◌≡◌, ◌⊎◌, inl, inr, refl, sym, ap, subst, ◌∙◌, Bool, true, false, not,
  ◌&&◌, Option, none, some, List, [], ◌++◌, ◌==◌, ltb, if◌then◌else◌, length, arith, Bool-cases,
  Option-cases,
}
use mega65_expansion_board_i.Storage.{Storage, Appends}
use mega65_expansion_board_i.Signed.Block.{FileType, Crypto, IsSha, no_error}
use mega65_expansion_board_i.Signed.Session
use mega65_expansion_board_i.Signed.Session.{Session, Config, Rx, keeps_transfer}
use mega65_expansion_board_i.Signed.Receive
use mega65_expansion_board_i.Signed.Taking.{Header, header, IsSplit, Hashed, Taking}
use mega65_expansion_board_i.Signed.Chunks.{Progress, write_loop-Progress}

-- a transfer that needs a signature is long enough to carry one
abbrev pub Guarded : Header → Type 0
Guarded h = (h.require_signature && not h.candidate_signature) ≡ false

too_long_test :
    (done n total : ℕ)
    → done ≤ total
    → total + n < 2 ^ 32
    → ltb total ((done + n) % 2 ^ 32) ≡ false
    → done + n ≤ total
too_long_test done n total le small test = ground arith

fits_test :
    (done n total : ℕ) → done + n ≤ total → total < 2 ^ 32 → ltb total ((done + n) % 2 ^ 32) ≡ false
fits_test done n total le small = ground arith

module _ {st : Storage} {k : Crypto} (ap' : Appends st) (sh : IsSha k) where
  -- The write has returned: the bytes before and the new ones are payload and block, or the
  -- transfer is rejected.
  abbrev pub Written : Header → st.File → List ℕ → Option (Bool × Session st k) → Type 0
  Written h f all o =
      (r : Bool × Session st k) × (o ≡ some r)
      × (((p : List ℕ) × (b : List ℕ) × (p ++ b ≡ all) × (r.0 ≡ true) × Taking ap' sh h f p b r.1)
          ⊎ ((r.0 ≡ false) × (r.1.rx.rejected ≡ true)))

  from_Progress :
      (h : Header) (f : st.File) (all : List ℕ) (o : Option (Bool × Session st k))
      → Progress ap' sh h f all o
      → Written h f all o
  from_Progress h f all o (p, b, r, run, bytes, goes) = elim goes [
    | inl (fine, t) ↦ (r, run, inl (p, b, bytes, fine, t))
    | inr stopped ↦ (r, run, inr stopped)
  ]

  -- While a transfer of at most `total_length` bytes arrives, a write of any length returns, if
  -- `total_length` and that length together are below 2 ^ 32. It
  -- either keeps the transfer split at the block's offset, with the payload on the card and in
  -- the hash and the rest in `block`, or returns false with the transfer rejected.
  pub signed_file_receive_write-Splits :
      (h : Header) (f : st.File) (p b xs : List ℕ) (s : Session st k)
      → IsSplit h
      → h.total_length + length xs < 2 ^ 32
      → Taking ap' sh h f p b s
      → Written h f ((p ++ b) ++ xs) (Receive.signed_file_receive_write st k xs s)
  unfolding Receive.signed_file_receive_write
  signed_file_receive_write-Splits h f p b xs s good small t =
      let live = t.live in
      let total : s.rx.total_length ≡ h.total_length = ap (λ g. g.total_length) t.head in
      elim (Bool-cases (ltb s.rx.total_length ((s.rx.done + length xs) % 2 ^ 32))) [
        | inl over ↦ simp (live, over) (_, refl, inr (refl, refl))
        | inr within ↦
            let done = t.done in
            let below = t.below in
            let fits = good.fits in
            let room =
              too_long_test s.rx.done (length xs) s.rx.total_length (omega arith) (omega arith)
                within in
            simp (live, within)
              (from_Progress h f ((p ++ b) ++ xs) _ (
                write_loop-Progress ap' sh h f good (length xs + 1) xs p b s (omega arith) t
                  (omega arith)))
      ]

  -- what `signed_file_receive_begin` fixes of a transfer
  abbrev pub header_of : Config → List ℕ → List ℕ → ℕ → FileType → Header
  header_of cfg final_path tmp_path total_length file_type =
      header (Session.initial_rx st k cfg final_path tmp_path total_length file_type)

  pub initial-IsSplit :
      (cfg : Config) (final_path tmp_path : List ℕ) (total_length : ℕ) (file_type : FileType)
      → total_length < 2 ^ 32
      → IsSplit (header_of cfg final_path tmp_path total_length file_type)
  unfolding Session.initial_rx
  initial-IsSplit cfg final_path tmp_path total_length file_type small = record {
    fits = small;
    split = ground arith;
  }

  opened_Taking :
      (rx : Rx st k) (sha : Option k.Ctx) (s : Session st k)
      → rx.rejected ≡ false
      → rx.block ≡ []
      → rx.block_done ≡ 0
      → rx.done ≡ 0
      → Hashed ap' sh rx.candidate_signature sha []
      → (Session.begin_open st k sha rx s.disk).0 ≡ true
      → (f : st.File) × Taking ap' sh (header rx) f [] [] (Session.begin_open st k sha rx s.disk).1
  unfolding Session.begin_open
  opened_Taking rx sha s live none_kept block_done done hashed ok =
      elim (Option-cases (st.storage_open_write rx.tmp_path s.disk).0) [
        | inl shut ↦ let no : false ≡ true = simp (Session.begin_open, shut) at ok in cc
        | inr (f, opened) ↦
            let run : Session.begin_open st k sha rx s.disk ≡ (
              true,
              record {
                rx = record rx { sha = sha; out_file = some f; out_open = true };
                disk = (st.storage_open_write rx.tmp_path s.disk).1;
                err = no_error;
              },
            ) =
              simp (Session.begin_open, opened) refl in
            (
              f,
              subst (λ o. Taking ap' sh (header rx) f [] [] o.1) (sym run)
                  (record {
                    head = refl;
                    opened = refl;
                    file = refl;
                    live = live;
                    written =
                        ap'.contents-open_write rx.tmp_path s.disk _ f
                          (ap (λ o. (o, (st.storage_open_write rx.tmp_path s.disk).1)) opened);
                    kept = none_kept;
                    block_done = block_done;
                    done = done;
                    hashed = hashed;
                    within = omega arith;
                    below = omega arith;
                    in_order = inl refl;
                  }),
            )
      ]

  pub total_length_of :
      (cfg : Config) (final_path tmp_path : List ℕ) (total_length : ℕ) (file_type : FileType)
      → (header_of cfg final_path tmp_path total_length file_type).total_length ≡ total_length
  unfolding Session.initial_rx
  total_length_of cfg final_path tmp_path total_length file_type = refl

  initial_fresh :
      (cfg : Config) (final_path tmp_path : List ℕ) (total_length : ℕ) (file_type : FileType)
      → let rx = Session.initial_rx st k cfg final_path tmp_path total_length file_type in
        (rx.rejected ≡ false) × (rx.block ≡ []) × (rx.block_done ≡ 0) × (rx.done ≡ 0)
  unfolding Session.initial_rx
  initial_fresh cfg final_path tmp_path total_length file_type = (refl, refl, refl, refl)

  passed :
      (b : Bool) (x rest : Bool × Session st k)
      → x.0 ≡ false
      → (if b then x else rest).0 ≡ true
      → (b ≡ false) × (rest.0 ≡ true)
  passed true x rest shut h = cc
  passed false x rest shut h = (refl, h)

  -- past the checks, begin is the opening of the file
  checked_opens :
      (rx : Rx st k) (s : Session st k)
      → (Session.begin_checked st k rx s).0 ≡ true
      → (sha : Option k.Ctx) × (Session.begin_checked st k rx s
          ≡ Session.begin_open st k sha rx s.disk)
        × ((rx.require_signature && not rx.candidate_signature) ≡ false)
        × Hashed ap' sh rx.candidate_signature sha []
  unfolding Session.begin_checked
  checked_opens rx s ok =
      let (e1, ok1) = passed (rx.require_signature && not rx.candidate_signature) _ _ refl ok in
      let (e2, ok2) =
        passed (rx.require_signature && length rx.cfg.trusted_keys == 0) _ _ refl ok1 in
      elim (Bool-cases rx.candidate_signature) [
        | inr plain ↦ (none, rw (e1, e2, plain) refl, e1, rw plain tt)
        | inl signed ↦ elim (Option-cases k.sha_starts) [
          | inl stuck ↦ let no : false ≡ true = simp (signed, stuck) at ok2 in cc
          | inr (c, start) ↦ (
            some c,
            (let e1' = simp signed at e1 in simp (signed, e1', e2, start) refl),
            e1,
            rw signed (c, refl, sh.starts-eq c start),
          )
        ]
      ]

  -- A begin that returns true has fixed the transfer by its arguments, opened an empty file and
  -- taken no byte, and a transfer that needs a signature is longer than a block.
  pub signed_file_receive_begin-Taking :
      (cfg : Config) (final_path tmp_path : List ℕ) (total_length : ℕ) (file_type : FileType)
      (s : Session st k)
      → (Session.signed_file_receive_begin st k cfg final_path tmp_path total_length file_type s).0
        ≡ true
      → (f : st.File) × (Guarded (header_of cfg final_path tmp_path total_length file_type))
        × Taking ap' sh
            (header_of cfg final_path tmp_path total_length file_type)
            f
            []
            []
            (Session.signed_file_receive_begin st k cfg final_path tmp_path total_length file_type
              s).1
  unfolding Session.signed_file_receive_begin
  signed_file_receive_begin-Taking cfg final_path tmp_path total_length file_type s ok =
      let rx : Rx st k = Session.initial_rx st k cfg final_path tmp_path total_length file_type in
      let (some_bytes, ok1) =
        passed (total_length == 0) _ (Session.begin_checked st k rx s) refl ok in
      let (live, none_kept, block_done, done) =
        initial_fresh cfg final_path tmp_path total_length file_type in
      let (sha, run, guard, hashed) = checked_opens rx s ok1 in
      let (f, t) =
        opened_Taking rx sha s live none_kept block_done done hashed
          (ap (λ o. o.0) (sym run) ∙ ok1) in
      rw some_bytes (f, guard, subst (λ o. Taking ap' sh (header rx) f [] [] o.1) (sym run) t)
