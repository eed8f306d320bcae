-- ===== src/Signed/Tests.antt =====
-- A card that holds one file, a toy hash and signature, and runs of the receiver on them.
use mega65_expansion_board_i.Base.{
  ℕ, ◌+◌, ◌^◌, ◌<◌, ◌≡◌, refl, sym, ap, true, false, Option, none, some, List, [], ◌∷◌, ◌++◌,
  length, take, drop, replicate, arith,
}
use mega65_expansion_board_i.Base.Text.{bytes_eq, codes}
use mega65_expansion_board_i.Storage.{Storage, Appends, Reads}
use mega65_expansion_board_i.Signed.Block
use mega65_expansion_board_i.Signed.Block.{
  Key, FileType, cor, Crypto, IsSha, sig_magic, no_error, verify_block,
}
use mega65_expansion_board_i.Signed.Verify.{Vouches, verify_block-Vouches, Vouches-verify_block}
use mega65_expansion_board_i.Signed.Session
use mega65_expansion_board_i.Signed.Session.{Session, Config}
use mega65_expansion_board_i.Signed.Receive
use mega65_expansion_board_i.Signed.Write.{
  Written, header_of, initial-IsSplit, signed_file_receive_begin-Taking,
  signed_file_receive_write-Splits,
}
use mega65_expansion_board_i.Signed.Finish.{Accepted}
use mega65_expansion_board_i.Signed.Whole
use mega65_expansion_board_i.Signed.Stored
use mega65_expansion_board_i.Signed.Stored.{Verdict, signed_file_verify_stored}
use mega65_expansion_board_i.Signed.Package.{Package, signed_file_verify_stored-Package}
use mega65_expansion_board_i.Signed.Returns.{verify_stored_returns}
use mega65_expansion_board_i.Signed.Whole.{concat, write_all_returns, receive_file-Accepted}

-- one file, whose contents are the disk
abbrev card : Storage
card = record {
  Disk = List ℕ;
  File = Unit;
  storage_open = λ p d. (some tt, d);
  storage_open_write = λ p d. (some tt, []);
  storage_read = λ f n d. (true, take n d, drop n d);
  storage_write = λ f xs d. (true, length xs, d ++ xs);
  storage_sync = λ f d. (true, d);
  storage_seek = λ f n d. (true, d);
  storage_tell = λ f d. 0;
  storage_size = λ f d. length d;
  storage_close = λ f d. d;
  storage_delete = λ p d. (true, d);
  storage_mkdir = λ p d. (true, d);
}

abbrev card-Appends : Appends card
card-Appends = record {
  contents = λ f d. d;
  contents-open_write = λ p d d' f e. sym (ap (λ o. o.1) e);
  contents-write = λ f xs d ok put. refl;
  contents-sync = λ f d. refl;
  contents-close = λ f d. refl;
}

abbrev card-Reads : Reads card
card-Reads = record {
  unread = λ f d. d;
  size-open = λ p d d' f e. refl;
  read-gives = λ f n d ok. refl;
  unread-read = λ f n d ok. refl;
}

-- the first 32 bytes, padded
abbrev toy_hash : List ℕ → List ℕ
toy_hash xs = take 32 (xs ++ replicate 32 0)

-- A signature is good if its second half is the digest.
abbrev toy : Crypto
toy = record {
  Ctx = List ℕ;
  sha_starts = some [];
  sha_update = λ c xs. some (c ++ xs);
  sha_finish = λ c. some (toy_hash c);
  Group = Unit;
  Point = List ℕ;
  Mpi = List ℕ;
  group_load = some tt;
  point_read = λ g bytes. some bytes;
  mpi_read = λ bytes. some bytes;
  ecdsa_verify = λ g d q r s. bytes_eq s d;
}

abbrev toy-IsSha : IsSha toy
toy-IsSha = record {
  hash = toy_hash;
  absorbed = λ c. c;
  starts-eq = λ c e. cc;
  update-eq = λ c c' xs e. cc;
  finish-eq = λ c d e. cc;
}

abbrev keys : List Key
keys = record { is_p256 = true; bytes = 4 ∷ 1 ∷ 2 ∷ [] } ∷ []

abbrev config : Config
config = record { require_signatures = true; trusted_keys = keys }

abbrev payload : List ℕ
payload = 10 ∷ 20 ∷ 30 ∷ []

abbrev block : List ℕ
block =
    sig_magic
    ++ (1 ∷ 0 ∷ 0 ∷ 1 ∷ 0 ∷ 0 ∷ 0 ∷ 0 ∷ 3 ∷ 0 ∷ 0 ∷ 0 ∷ 2 ∷ 0 ∷ 1 ∷ 1 ∷ [])
    ++ replicate 16 0
    ++ toy_hash payload
    ++ replicate 96 0
    ++ replicate 32 7
    ++ sig_magic

abbrev path : List ℕ
path = codes "/core.cor"

abbrev fresh : Session card toy
fresh = record { rx = Session.initial_rx card toy config [] [] 0 cor; disk = []; err = no_error }

abbrev begun : Session.Out card toy
begun = Session.signed_file_receive_begin card toy config path (codes "/tmp") 259 cor fresh

-- the transfer in three chunks, the second of which holds the end of the payload and a part of the block
abbrev chunks : List (List ℕ)
chunks = (10 ∷ []) ∷ (20 ∷ 30 ∷ take 100 block) ∷ drop 100 block ∷ []

abbrev session_of : Option (Session.Out card toy) → Session card toy
session_of none = fresh
session_of (some r) = r.1

abbrev received : Session card toy
received = session_of (Whole.write_all card toy chunks begun.1)

begun_ok : begun.0 ≡ true
unfolding Session.signed_file_receive_begin Session.begin_checked Session.begin_open
    Session.initial_rx Session.keeps_transfer
begun_ok = refl

chunks_ok : Whole.write_all card toy chunks begun.1 ≡ some (true, received)
unfolding Session.signed_file_receive_begin Session.begin_checked Session.begin_open
    Session.initial_rx Session.keeps_transfer Whole.write_all Receive.signed_file_receive_write
    Receive.write_loop Receive.take_block Receive.take_payload Session.receive_payload_write
    Session.write_chunk
chunks_ok = refl

verified : verify_block toy keys cor path 3 (toy_hash payload) block ≡ none
unfolding verify_block Block.le16 Block.le32 Block.is_zero16 Block.name_error Block.last_checks
    Block.sha256_once Block.key_accepts Block.any_key_accepts Block.verify_p256_signature
    Block.key_id_for bytes_eq
verified = refl

finished_ok : (Receive.signed_file_receive_finish card toy received).0 ≡ true
unfolding Session.signed_file_receive_begin Session.begin_checked Session.begin_open
    Session.initial_rx Session.keeps_transfer Whole.write_all Receive.signed_file_receive_write
    Receive.write_loop Receive.take_block Receive.take_payload Session.receive_payload_write
    Session.write_chunk Receive.signed_file_receive_finish Receive.finish_signed Receive.finish_kept
    Receive.close_and_accept Session.receive_payload_sync_close Session.close_out verify_block
    Block.le16 Block.le32 Block.is_zero16 Block.name_error Block.last_checks Block.sha256_once
    Block.key_accepts Block.any_key_accepts Block.verify_p256_signature Block.key_id_for bytes_eq
finished_ok = refl

verify_block-Vouches_example : Vouches toy keys cor path 3 (toy_hash payload) block
verify_block-Vouches_example =
    verify_block-Vouches toy keys cor path 3 (toy_hash payload) block verified

Vouches-verify_block_example : verify_block toy keys cor path 3 (toy_hash payload) block ≡ none
Vouches-verify_block_example =
    Vouches-verify_block toy keys cor path 3 (toy_hash payload) block
      (verify_block-Vouches toy keys cor path 3 (toy_hash payload) block verified)

write_all_returns_example :
    (r : Session.Out card toy) × (Whole.write_all card toy chunks begun.1 ≡ some r)
write_all_returns_example =
    write_all_returns card-Appends toy-IsSha config path (codes "/tmp") 259 cor chunks fresh
      (omega arith) (omega arith, (omega arith, (omega arith, tt))) begun_ok

receive_file-Accepted_example :
    (f : Unit) × Accepted card-Appends toy-IsSha
      (header_of card-Appends toy-IsSha config path (codes "/tmp") 259 cor)
      f
      (concat chunks)
      (Receive.signed_file_receive_finish card toy received).1.disk
receive_file-Accepted_example =
    receive_file-Accepted card-Appends toy-IsSha config path (codes "/tmp") 259 cor chunks fresh
      received (omega arith) (omega arith, (omega arith, (omega arith, tt))) begun_ok chunks_ok
      finished_ok

small_transfer :
    (header_of card-Appends toy-IsSha config path (codes "/tmp") 259 cor).total_length
      + length payload
    < 2 ^ 32
unfolding Session.initial_rx
small_transfer = omega arith

signed_file_receive_write-Splits_example :
    Written card-Appends toy-IsSha
      (header_of card-Appends toy-IsSha config path (codes "/tmp") 259 cor)
      tt
      payload
      (Receive.signed_file_receive_write card toy payload begun.1)
signed_file_receive_write-Splits_example =
    signed_file_receive_write-Splits card-Appends toy-IsSha
      (header_of card-Appends toy-IsSha config path (codes "/tmp") 259 cor) tt [] [] payload begun.1
      (initial-IsSplit card-Appends toy-IsSha config path (codes "/tmp") 259 cor (omega arith))
      small_transfer
      (signed_file_receive_begin-Taking card-Appends toy-IsSha config path (codes "/tmp") 259 cor
        fresh begun_ok).2

stored_ok :
    signed_file_verify_stored card toy config path cor true (payload ++ block)
    ≡ some (true, no_error, [])
unfolding signed_file_verify_stored Stored.verify_open Stored.hash_loop Stored.read_block
    Stored.verdict_on verify_block Block.le16 Block.le32 Block.is_zero16 Block.name_error
    Block.last_checks Block.sha256_once Block.key_accepts Block.any_key_accepts
    Block.verify_p256_signature Block.key_id_for bytes_eq
stored_ok = refl

signed_file_verify_stored-Package_example :
    (f : Unit) × ((card.storage_open path (payload ++ block)).0 ≡ some f)
    × Package card-Reads toy-IsSha config path cor (payload ++ block)
signed_file_verify_stored-Package_example =
    signed_file_verify_stored-Package card-Reads toy-IsSha config path cor (payload ++ block)
      (true, no_error, []) stored_ok refl

verify_stored_returns_example :
    (r : Verdict card toy) × (signed_file_verify_stored card toy config path cor false payload
      ≡ some r)
verify_stored_returns_example =
    verify_stored_returns card-Reads toy-IsSha config path cor false payload
