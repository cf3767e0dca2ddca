-- ===== src/Examples/Files.antt =====
-- File streams at concrete inputs, with primitives that are easy to compute: a frame is sealed by 16
-- zeros after it, and a digest is the length of what it covers.
use wormzy.Prelude.{
  ℕ, ◌+◌, ◌-◌, zero, suc, Bool, true, false, Option, none, some, List, [], ◌∷◌, ◌++◌, length,
  length-append, take, take-append, list_eq, codes, ◌≡◌, ◌≢◌, ◌⊎◌, refl, ap, ◌∙◌, arith, drop,
}
use wormzy.Prelude.Int.{pos}
use wormzy.Prelude.Fallible.{ok, fail}
use wormzy.Completion.{take_full}
use wormzy.Transfer.{
  Primitives, FileMetadata, file_hash_algorithm, chunk_size, stream_error, out_of_fuel,
}
use wormzy.Transfer.Nonce.{make_nonce, make_nonce-ne, xor, xor_at, xor_bytes}
use wormzy.Transfer.Frames.{read_full, read_chunk, write, write_chunk, be_value, ended}
use wormzy.Transfer.Send.{
  SendCalls, Sent, Reads, more, last, contents, send_bytes, send_chunks, send_trailer, send_stream,
  send_file_encrypted, le_bytes, file_header,
}
use wormzy.Transfer.Files.{
  Directory, put, open_candidate, attempt_name, sanitize_filename, create_download_file,
  ensure_free_space, Reserved, sanitize_filename-IsPlain, IsPlain,
}
use wormzy.Transfer.Receive.{
  ReceiveCalls, Received, receive_file, open_transfer, parse_header, le_value, receive_body,
  receive_chunks, verify_metadata, check_metadata, finish_download, clamp_int64, default_name,
}
use wormzy.Prelude.Duplex.{Runs}
use wormzy.Transfer.Confirm.{Mac, script_duplex}
use wormzy.Transfer.Confirms.{starts, confirmed, confirm_peer_psk_both}
use wormzy.Transfer.RoundTrip.{receive_file-send_file_encrypted}
use wormzy.Transfer.Download.{receive_file-IsSaved, receive_file-fail, IsSaved, IsLeft}
use wormzy.Transfer.Termination.{receive_file-Ends}

abbrev zeros : ℕ → List ℕ
zeros zero = []
zeros (suc n) = 0 ∷ zeros n

abbrev unsealed : List ℕ → Option (List ℕ)
unsealed ct = some (take (length ct - 16) ct)

unsealed_lem : (p : List ℕ) → unsealed (p ++ zeros 16) ≡ some p
unsealed_lem p =
    let size : length (p ++ zeros 16) - 16 ≡ length p = omega (arith, length-append p (zeros 16)) in
    ap (λ n. some (take n (p ++ zeros 16))) size ∙ ap some (take-append p (zeros 16))

abbrev parsed : List ℕ → Option FileMetadata
parsed [] = none
parsed (size ∷ digest) =
    some
      (record { hash = file_hash_algorithm; chunk_size = chunk_size; size = size; digest = digest })

abbrev plain_primitives : Primitives
plain_primitives = record {
  seal = λ key nonce p. p ++ zeros 16;
  unseal = λ key nonce ct. unsealed ct;
  seal_size = λ key nonce p. length-append p (zeros 16);
  unseal-seal = λ key nonce p. unsealed_lem p;
  hash = λ bytes. length bytes ∷ zeros 31;
  hash_size = λ bytes. refl;
  marshal = λ m. m.size ∷ m.digest;
  decode = parsed;
  format_int = λ n. n ∷ [];
  ext = λ name. [];
  trim_suffix = λ name ext. name;
  runes = λ bytes. bytes;
  utf8 = λ rs. rs;
  is_control = λ r. false;
  is_format = λ r. false;
  utf8_ascii = λ rs b small h. h;
}

abbrev two_reads : Reads
two_reads = more false (1 ∷ 2 ∷ []) (last false (3 ∷ []) none)

abbrev sender : SendCalls
sender = record {
  stat = true;
  is_dir = false;
  name = codes "a";
  size = pos 3;
  opens = true;
  reads = two_reads;
  stream = true;
  accepts = λ n. true;
  random = some (zeros 24);
}

abbrev framed : List ℕ → List ℕ
framed p = 0 ∷ 0 ∷ 0 ∷ (length p + 16) ∷ p ++ zeros 16

abbrev sent_stream : List ℕ
sent_stream =
    zeros 24
    ++ framed (1 ∷ 0 ∷ 3 ∷ zeros 7 ++ codes "a")
    ++ framed (1 ∷ 2 ∷ [])
    ++ framed (3 ∷ [])
    ++ framed (codes "META:" ++ 3 ∷ 3 ∷ zeros 31)

abbrev sent : Sent
sent = record { digest = 3 ∷ zeros 31; size = 3; stream = sent_stream }

sends : send_file_encrypted ⦃P = plain_primitives⦄ (zeros 32) sender ≡ ok sent
unfolding send_file_encrypted send_stream send_trailer send_chunks send_bytes write_chunk write
    le_bytes file_header make_nonce xor xor_at xor_bytes
sends = refl

abbrev empty_directory : Directory
empty_directory = record {
  opens = true;
  refuses = λ name. false;
  free = some 100;
  files = λ name. none;
}

-- A receiver of this stream.
abbrev receiver : List ℕ → Bool → ReceiveCalls
receiver pending cut = record {
  stream = some (record { pending = pending; cut = cut });
  context_done = λ n. false;
  dir = empty_directory;
  random = λ i. none;
  writes = λ n. true;
  closes = true;
  remains = none;
}

-- A receiver of a stream that is cut, who cannot remove its file.
abbrev stuck : ReceiveCalls
stuck = record (receiver (take 100 sent_stream) true) { remains = some [] }

abbrev out : Reserved
out = record { name = codes "a"; renamed = false; dir = put (codes "a") (some []) empty_directory }

reserves :
    create_download_file ⦃P = plain_primitives⦄ empty_directory
      (default_name ⦃P = plain_primitives⦄ (sanitize_filename ⦃P = plain_primitives⦄ (codes "a")))
      (λ i. none)
    ≡ ok out
unfolding create_download_file attempt_name open_candidate sanitize_filename list_eq
reserves = refl

abbrev received : Received
received = record { path = codes "a"; digest = 3 ∷ zeros 31; size = 3 }

receive_file-send_file_encrypted_example :
    receive_file ⦃P = plain_primitives⦄ (zeros 32) (receiver sent_stream false)
    ≡ (put (codes "a") (some (1 ∷ 2 ∷ 3 ∷ [])) out.dir, ok received)
unfolding contents ensure_free_space
receive_file-send_file_encrypted_example =
    receive_file-send_file_encrypted ⦃P = plain_primitives⦄ (zeros 32) (zeros 24) sender sent
      (receiver sent_stream false) out sends refl (omega arith) refl refl refl refl
      (record { context_done = λ n. refl; writes = λ n. refl }) refl refl reserves

arrives :
    (receive_file ⦃P = plain_primitives⦄ (zeros 32) (receiver sent_stream false)).1 ≡ ok received
unfolding receive_file open_transfer read_full take_full read_chunk be_value parse_header le_value
    take drop create_download_file attempt_name open_candidate sanitize_filename list_eq
    ensure_free_space receive_body receive_chunks finish_download ended make_nonce xor xor_at
    xor_bytes verify_metadata check_metadata clamp_int64
arrives = refl

receive_file-IsSaved_example :
    IsSaved ⦃P = plain_primitives⦄
      (zeros 32)
      (receiver sent_stream false)
      (receive_file ⦃P = plain_primitives⦄ (zeros 32) (receiver sent_stream false)).0
      received
receive_file-IsSaved_example =
    receive_file-IsSaved ⦃P = plain_primitives⦄ (zeros 32) (receiver sent_stream false) received
      arrives

receive_file-fail_example :
    ((name : List ℕ)
      → (receive_file ⦃P = plain_primitives⦄ (zeros 32) stuck).0.files name
        ≡ empty_directory.files name)
    ⊎ IsLeft stuck (receive_file ⦃P = plain_primitives⦄ (zeros 32) stuck).0
unfolding receive_file open_transfer read_full take_full read_chunk be_value parse_header le_value
    take drop create_download_file attempt_name open_candidate sanitize_filename list_eq
    ensure_free_space receive_body receive_chunks finish_download ended make_nonce xor xor_at
    xor_bytes verify_metadata
receive_file-fail_example =
    receive_file-fail ⦃P = plain_primitives⦄ (zeros 32) stuck stream_error refl

receive_file-Ends_example :
    (receive_file ⦃P = plain_primitives⦄ (zeros 32) (receiver sent_stream false)).1
    ≢ fail out_of_fuel
receive_file-Ends_example =
    receive_file-Ends ⦃P = plain_primitives⦄ (zeros 32) (receiver sent_stream false)

make_nonce-ne_example : make_nonce (zeros 24) 1 ≢ make_nonce (zeros 24) 256
make_nonce-ne_example =
    make_nonce-ne (zeros 24) 1 256 refl (omega arith) (omega arith) (λ e. omega (arith, e))

sanitize_filename-IsPlain_example :
    IsPlain (sanitize_filename ⦃P = plain_primitives⦄ (codes "../etc/passwd"))
sanitize_filename-IsPlain_example =
    sanitize_filename-IsPlain ⦃P = plain_primitives⦄ (codes "../etc/passwd")

abbrev mac : Mac
mac = record { hmac = λ key message. zeros 32; hmac_size = λ key message. refl }

confirm_peer_psk_both_example :
    (i : ℕ) × ((0 + i ≡ 8)
      × Runs (script_duplex) i (starts ⦃H = mac⦄ (zeros 32) (zeros 32) (zeros 32)) confirmed)
confirm_peer_psk_both_example =
    confirm_peer_psk_both ⦃H = mac⦄ (zeros 32) (zeros 32) (zeros 32) 0
      (starts ⦃H = mac⦄ (zeros 32) (zeros 32) (zeros 32)) refl refl refl refl
