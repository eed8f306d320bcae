-- ===== src/Signed/Finish.antt =====
-- src/signed_file.c: what `signed_file_receive_finish` has accepted when it returns true.
use mega65_expansion_board_i.Base.{
  ℕ, ◌+◌, ◌≤◌, ◌≡◌, ◌⊎◌, inl, inr, refl, sym, ap, subst, ◌∙◌, Bool, true, false, not, ◌&&◌, List,
  [], ◌++◌, ◌==◌, if◌then◌else◌, take, length, length-append, nil_of_length, append-nil, arith,
  Bool-cases, ==_iff,
}
use mega65_expansion_board_i.Base.Text.{bytes_eq}
use mega65_expansion_board_i.Storage.{Storage, Appends}
use mega65_expansion_board_i.Signed.Block.{Crypto, IsSha, sig_magic, sig_block_size}
use mega65_expansion_board_i.Signed.Session.{Session}
use mega65_expansion_board_i.Signed.Receive
use mega65_expansion_board_i.Signed.Taking.{Header, IsSplit, Taking}
use mega65_expansion_board_i.Signed.Write.{Guarded}
use mega65_expansion_board_i.Signed.Accept.{
  Signed, Unsigned, finish_unsigned-contents, finish_signed-Signed, close_and_accept-contents,
}

all_arrived :
    (cand : Bool) (off total done np nb : ℕ)
    → (if cand then off else total) + (if cand then sig_block_size else 0) ≡ total
    → done ≡ np + nb
    → np ≤ (if cand then off else total)
    → (nb ≡ 0) ⊎ (np ≡ (if cand then off else total))
    → done ≡ total
    → ((cand ≡ true) × (np ≡ off) × (nb ≡ 256)) ⊎ ((cand ≡ false) × (nb ≡ 0))
all_arrived cand off total done np nb split d within order all = ground arith

unneeded : (h : Header) → Guarded h → h.candidate_signature ≡ false → h.require_signature ≡ false
unneeded h guard plain = ground arith

waived : (magic required : Bool) → (not magic && not required) ≡ true → required ≡ false
waived magic required h = ground arith

negated : {b : Bool} → b ≡ true → not b ≡ false
negated h = rw h refl

-- the branch of a ladder behind three tests that fail
reach :
    {D : Type 0} (a b c : Bool) (x y z w : D)
    → a ≡ false
    → b ≡ false
    → c ≡ false
    → (if a then x else if b then y else if c then z else w) ≡ w
reach a b c x y z w p q r = rw (p, q, r) refl

-- the end of `signed_file_receive_finish`
abbrev settle : (st : Storage) (k : Crypto) → Bool → Session st k → Bool × Session st k
settle st k m s =
    if not m && not s.rx.require_signature
    then Receive.finish_unsigned st k s
    else Receive.finish_signed st k s

module _ {st : Storage} {k : Crypto} (ap' : Appends st) (sh : IsSha k) where
  -- The transfer is complete, and it is signed, or nobody asked for a signature.
  pub record Accepted (h : Header) (f : st.File) (all : List ℕ) (disk : st.Disk) : Type 0 where
    pub complete : length all ≡ h.total_length
    pub how : Signed ap' sh h f all disk ⊎ Unsigned ap' sh h f all disk

  abbrev saw : Bool → Session st k → Session st k
  saw b s = record s { rx = record s.rx { saw_magic = b } }

  saw-Taking :
      (h : Header) (f : st.File) (p b : List ℕ) (m : Bool) (s : Session st k)
      → Taking ap' sh h f p b s
      → Taking ap' sh h f p b (saw m s)
  saw-Taking h f p b m s t = record {
    head = t.head;
    opened = t.opened;
    file = t.file;
    live = t.live;
    written = t.written;
    kept = t.kept;
    block_done = t.block_done;
    done = t.done;
    hashed = t.hashed;
    within = t.within;
    below = t.below;
    in_order = t.in_order;
  }

  -- the last two branches of finish
  settled :
      (h : Header) (f : st.File) (p b : List ℕ) (m : Bool) (s : Session st k)
      → Taking ap' sh h f p b s
      → h.candidate_signature ≡ true
      → length p ≡ h.block_offset
      → length b ≡ 256
      → (settle st k m s).0 ≡ true
      → Signed ap' sh h f (p ++ b) (settle st k m s).1.disk
        ⊎ Unsigned ap' sh h f (p ++ b) (settle st k m s).1.disk
  settled h f p b m s t cand at_block whole ok =
      elim (Bool-cases (not m && not s.rx.require_signature)) [
        | inr checked ↦
            let ok' = simp checked at ok in
            simp checked (inl (finish_signed-Signed ap' sh h f p b s t cand at_block whole ok'))
        | inl free ↦
            let ok' = simp free at ok in
            let no_need : h.require_signature ≡ false =
              sym (ap (λ g. g.require_signature) t.head) ∙ waived m s.rx.require_signature free in
            simp free (
              inr (record {
                not_required = no_need;
                stored =
                    finish_unsigned-contents ap' sh h f p b s (t.opened, t.file, t.written) t.kept
                      ok';
              }))
      ]

  -- If finish returns true after the payload bytes `p` and the block bytes `b`, then all of the
  -- transfer has arrived. Either the block vouches for the hash of the payload, under the keys, the
  -- type, the path and the length of the transfer, and the card holds the payload, with the block
  -- behind it where the type keeps it; or no signature is required, and the card holds both.
  pub signed_file_receive_finish-Accepted :
      (h : Header) (f : st.File) (p b : List ℕ) (s : Session st k)
      → IsSplit h
      → Guarded h
      → Taking ap' sh h f p b s
      → (Receive.signed_file_receive_finish st k s).0 ≡ true
      → Accepted h f (p ++ b) (Receive.signed_file_receive_finish st k s).1.disk
  unfolding Receive.signed_file_receive_finish
  signed_file_receive_finish-Accepted h f p b s good guard t ok =
      let live = t.live in
      let all = length-append p b in
      let done = t.done in
      let cand : s.rx.candidate_signature ≡ h.candidate_signature =
        ap (λ g. g.candidate_signature) t.head in
      let total : s.rx.total_length ≡ h.total_length = ap (λ g. g.total_length) t.head in
      elim (Bool-cases (s.rx.done == s.rx.total_length)) [
        | inr short ↦ let no : false ≡ true = simp (live, short) at ok in cc
        | inl arrived ↦
            let e = (==_iff s.rx.done s.rx.total_length).0 arrived in
            elim (all_arrived h.candidate_signature h.block_offset h.total_length s.rx.done
              (length p) (length b) good.split done t.within t.in_order (omega arith)) [
                | inr (plain, nothing) ↦
                    let empty : b ≡ [] = nil_of_length b nothing in
                    let whole : p ++ b ≡ p = ap (λ c. p ++ c) empty ∙ append-nil p in
                    record {
                      complete = omega arith;
                      how = inr (record {
                        not_required = unneeded h guard plain;
                        stored =
                            simp (live, arrived, cand, plain)
                              (close_and_accept-contents ap' sh f p s (t.opened, t.file, t.written))
                            ∙ sym whole;
                      });
                    }
                | inl (signed, at_block, whole) ↦
                    let m =
                      s.rx.block_done == sig_block_size
                      && bytes_eq (take 32 s.rx.block) sig_magic in
                    let run =
                      reach _ _ _ _ _ _ (settle st k m (saw m s)) live (negated arrived)
                        (negated (cand ∙ signed)) in
                    record {
                      complete = omega arith;
                      how =
                          subst
                            (λ o.
                              Signed ap' sh h f (p ++ b) o.1.disk
                              ⊎ Unsigned ap' sh h f (p ++ b) o.1.disk)
                            (sym run)
                            (settled h f p b m (saw m s) (saw-Taking h f p b m s t) signed at_block
                              whole (ap (λ o. o.0) (sym run) ∙ ok));
                    }
              ]
      ]
