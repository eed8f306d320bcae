-- ===== src/Signed/Accept.antt =====
-- src/signed_file.c: the ways a transfer ends in `signed_file_receive_finish`, and what the card holds then.
use mega65_expansion_board_i.Base.{
  ℕ, ◌≡◌, inl, inr, refl, sym, ap, subst, ◌∙◌, Bool, true, false, none, some, List, ◌++◌,
  if◌then◌else◌, length, Bool-cases, Option-cases,
}
use mega65_expansion_board_i.Storage.{Storage, Appends}
use mega65_expansion_board_i.Signed.Block.{Crypto, IsSha, no_error, verify_block}
use mega65_expansion_board_i.Signed.Verify.{Vouches, verify_block-Vouches}
use mega65_expansion_board_i.Signed.Session
use mega65_expansion_board_i.Signed.Session.{Session, Config, Rx, keeps_transfer}
use mega65_expansion_board_i.Signed.Receive
use mega65_expansion_board_i.Signed.Taking.{Header, Taking, receive_payload_write-Wrote}

module _ {st : Storage} {k : Crypto} (ap' : Appends st) (sh : IsSha k) where
  -- what the card holds behind an open file
  abbrev pub Holds : st.File → List ℕ → Session st k → Type 0
  Holds f xs s = (s.rx.out_open ≡ true) × (s.rx.out_file ≡ some f) × (ap'.contents f s.disk ≡ xs)

  close_out-contents :
      (f : st.File) (s : Session st k)
      → ap'.contents f (Session.close_out st k f s).1.disk ≡ ap'.contents f s.disk
  unfolding Session.close_out
  close_out-contents f s = ap'.contents-close f _ ∙ ap'.contents-sync f s.disk

  pub close_and_accept-contents :
      (f : st.File) (xs : List ℕ) (s : Session st k)
      → Holds f xs s
      → ap'.contents f (Receive.close_and_accept st k s).1.disk ≡ xs
  unfolding Receive.close_and_accept Session.receive_payload_sync_close
  close_and_accept-contents f xs s (opened, file, holds) =
      elim (Bool-cases (Session.close_out st k f s).0) [
        | inl fine ↦ simp (opened, file, fine) (close_out-contents f s ∙ holds)
        | inr bad ↦ simp (opened, file, bad) (close_out-contents f s ∙ holds)
      ]

  -- What an accepted transfer is: a payload and a block that vouches for its hash, of which the
  -- card holds the payload, or both where the block is kept.
  pub record Signed (h : Header) (f : st.File) (all : List ℕ) (disk : st.Disk) : Type 0 where
    pub payload : List ℕ
    pub block : List ℕ
    pub parts : payload ++ block ≡ all
    pub block_length : length block ≡ 256
    pub vouches :
        Vouches k h.cfg.trusted_keys h.file_type h.final_path
          (length payload)
          (sh.hash payload)
          block
    pub stored : ap'.contents f disk ≡ (if h.preserve_transfer then payload ++ block else payload)

  -- a transfer that nobody signed: no signature is required, and the card holds all of it
  pub record Unsigned (h : Header) (f : st.File) (all : List ℕ) (disk : st.Disk) : Type 0 where
    pub not_required : h.require_signature ≡ false
    pub stored : ap'.contents f disk ≡ all

  pub finish_unsigned-contents :
      (h : Header) (f : st.File) (p b : List ℕ) (s : Session st k)
      → Holds f p s
      → s.rx.block ≡ b
      → (Receive.finish_unsigned st k s).0 ≡ true
      → ap'.contents f (Receive.finish_unsigned st k s).1.disk ≡ p ++ b
  unfolding Receive.finish_unsigned
  finish_unsigned-contents h f p b s (opened, file, holds) kept ok =
      let (same, out) = receive_payload_write-Wrote ap' sh f s.rx.block s opened file in
      elim out [
        | inr bad ↦ let no : false ≡ true = simp bad at ok in cc
        | inl (fine, wrote) ↦ rw fine (
            close_and_accept-contents f (p ++ b) _ (
              ap (λ r. r.out_open) same ∙ opened,
              ap (λ r. r.out_file) same ∙ file,
              wrote ∙ (ap (λ c. c ++ s.rx.block) holds ∙ ap (λ c. p ++ c) kept),
            ))
      ]

  -- a block that `verify_block` accepts, in the terms of the transfer
  vouched :
      (h : Header) {f : st.File} (p b hash : List ℕ) (s : Session st k)
      → Taking ap' sh h f p b s
      → length p ≡ h.block_offset
      → hash ≡ sh.hash p
      → verify_block k s.rx.cfg.trusted_keys s.rx.file_type s.rx.final_path s.rx.block_offset hash
          s.rx.block
        ≡ none
      → Vouches k h.cfg.trusted_keys h.file_type h.final_path (length p) (sh.hash p) b
  vouched h p b hash s t at_block same good =
      let e : verify_block k h.cfg.trusted_keys h.file_type h.final_path h.block_offset hash
            s.rx.block
          ≡ none =
        subst
          (λ g.
            verify_block k g.cfg.trusted_keys g.file_type g.final_path g.block_offset hash
              s.rx.block
            ≡ none)
          t.head good in
      verify_block-Vouches k h.cfg.trusted_keys h.file_type h.final_path (length p) (sh.hash p) b
        (rw (at_block, ← same, ← t.kept) e)

  finish_kept-contents :
      (preserve : Bool) (f : st.File) (p b : List ℕ) (s : Session st k)
      → Holds f p s
      → s.rx.block ≡ b
      → (Receive.finish_kept st k preserve s).0 ≡ true
      → ap'.contents f (Receive.finish_kept st k preserve s).1.disk
        ≡ (if preserve then p ++ b else p)
  unfolding Receive.finish_kept
  finish_kept-contents false f p b s holds kept ok =
      close_and_accept-contents f p (record s { err = no_error }) holds
  finish_kept-contents true f p b s (opened, file, holds) kept ok =
      let (same, out) = receive_payload_write-Wrote ap' sh f s.rx.block s opened file in
      elim out [
        | inr bad ↦ let no : false ≡ true = simp bad at ok in cc
        | inl (fine, wrote) ↦ rw fine (
            close_and_accept-contents f (p ++ b) _ (
              ap (λ r. r.out_open) same ∙ opened,
              ap (λ r. r.out_file) same ∙ file,
              wrote ∙ (ap (λ c. c ++ s.rx.block) holds ∙ ap (λ c. p ++ c) kept),
            ))
      ]

  -- the receiver once the hash is finished
  abbrev hashed_session : Session st k → Session st k
  hashed_session s = record s { rx = record s.rx { sha = none; candidate_signature = false } }

  pub finish_signed-Signed :
      (h : Header) (f : st.File) (p b : List ℕ) (s : Session st k)
      → Taking ap' sh h f p b s
      → h.candidate_signature ≡ true
      → length p ≡ h.block_offset
      → length b ≡ 256
      → (Receive.finish_signed st k s).0 ≡ true
      → Signed h f (p ++ b) (Receive.finish_signed st k s).1.disk
  unfolding Receive.finish_signed
  finish_signed-Signed h f p b s t cand at_block whole ok =
      let (c, has, absorbed) : (c : k.Ctx) × (s.rx.sha ≡ some c) × (sh.absorbed c ≡ p) =
        rw cand at t.hashed in
      elim (Option-cases (k.sha_finish c)) [
        | inl stuck ↦ let no : false ≡ true = simp (Receive.finish_signed, has, stuck) at ok in cc
        | inr (hash, digest) ↦
            elim (Option-cases (
              verify_block k s.rx.cfg.trusted_keys s.rx.file_type s.rx.final_path s.rx.block_offset
                hash s.rx.block)) [
                  | inr (e, bad) ↦
                      let no : false ≡ true =
                        simp (Receive.finish_signed, has, digest, bad) at ok in
                      cc
                  | inl good ↦
                      let run : Receive.finish_signed st k s
                          ≡ Receive.finish_kept st k s.rx.preserve_transfer (hashed_session s) =
                        simp (Receive.finish_signed, has, digest, good) refl in
                      record {
                        payload = p;
                        block = b;
                        parts = refl;
                        block_length = whole;
                        vouches =
                            vouched h p b hash s t at_block
                              (sh.finish-eq c hash digest ∙ ap sh.hash absorbed) good;
                        stored =
                            ap (λ o. ap'.contents f o.1.disk) run
                            ∙ finish_kept-contents s.rx.preserve_transfer f p b (hashed_session s)
                                (t.opened, t.file, t.written) t.kept (sym (ap (λ o. o.0) run) ∙ ok)
                            ∙ ap (λ g. if g.preserve_transfer then p ++ b else p) t.head;
                      }
                ]
      ]
