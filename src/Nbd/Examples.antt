-- ===== src/Nbd/Examples.antt =====
-- Concrete runs of the NBD device, on a file of 8 bytes.
use mathlib.Core.List.{flatten}
use distributed_nas.Base.{
  ◌==◌, if◌then◌else◌, ℕ, ◌≡◌, ◌↔◌, ◌<◌, ◌^◌, refl, List, [], ◌∷◌, ◌++◌, map, arith, take, drop,
  pos,
}
use distributed_nas.Nbd.Bytes.{le_bytes, be_bytes}
use distributed_nas.Nbd.Io.{ReadCall, got, eof, wrote, done, read_all, write_all}
use distributed_nas.Nbd.Io.Reading.{Supplies, read_all-chunks}
use distributed_nas.Nbd.Io.Writing.{write_all-Takes}
use distributed_nas.Nbd.Server.{Server}
use distributed_nas.Nbd.Image.{Image, image_disk}
use distributed_nas.Nbd.Proxy.{nbd_rw_req, rw_req, nbd_cmd_read, nbd_cmd_write, socket_sink}
use distributed_nas.Nbd.Proxy.Decoding.{encode_request, sent_request, rw_of}
use distributed_nas.Nbd.Proxy.Requests.{nbd_rw_req_iff, on_socket_ready-read}
use distributed_nas.Nbd.Proxy.Typing.{IsTyped, on_socket_ready-IsTyped}
use distributed_nas.Nbd.Proxy.Replies.{encode_reply}
use distributed_nas.Nbd.Handlers.Serving.{Serves, serve-read, serve-write}
use distributed_nas.Nbd.Handlers.Rereading.{serve-reread}
use distributed_nas.Nbd.Handlers.{serve}
use distributed_nas.Nbd.Memory.{interleaved_writes}
use distributed_nas.Nbd.Memory.Races.{interleaved_writes-done}
use distributed_nas.Nbd.Slices.{spliced}

abbrev handle : List ℕ
handle = 1 ∷ 2 ∷ 3 ∷ 4 ∷ 5 ∷ 6 ∷ 7 ∷ 8 ∷ []

abbrev image : Image
image = record { content = 10 ∷ 11 ∷ 12 ∷ 13 ∷ 14 ∷ 15 ∷ 16 ∷ 17 ∷ []; at = 0 }

-- Bytes that come in two pieces, the first one of 5.
abbrev in_two : List ℕ → List (List ℕ)
in_two bs = take 5 bs ∷ drop 5 bs ∷ []

abbrev written : List ℕ
written = 90 ∷ 91 ∷ 92 ∷ []

-- A server whose socket delivers a command in two pieces, and then three bytes one by one.
abbrev server : ℕ → ℕ → ℕ → Server Image
server kind from len = record {
  file = image;
  sent = [];
  from_socket =
      map got (in_two (encode_request kind handle from len))
      ++ got (90 ∷ []) ∷ got (91 ∷ []) ∷ got (92 ∷ []) ∷ eof ∷ [];
  to_socket = wrote 10 ∷ wrote 6 ∷ wrote 2 ∷ wrote 1 ∷ [];
  from_file = λ p. if p == 4 then got (14 ∷ []) ∷ got (15 ∷ 16 ∷ []) ∷ [] else [];
  to_file = wrote 1 ∷ wrote 2 ∷ [];
}

abbrev payload_calls : List ReadCall
payload_calls = got (90 ∷ []) ∷ got (91 ∷ []) ∷ got (92 ∷ []) ∷ eof ∷ []

supplied :
    (kind from len : ℕ)
    → Supplies
        (server kind from len).from_socket
        (encode_request kind handle from len)
        payload_calls
unfolding be_bytes le_bytes flatten
supplied kind from len =
    (in_two (encode_request kind handle from len), (omega arith, (omega arith, tt)), refl, refl)

supplied_payload : Supplies payload_calls written (eof ∷ [])
unfolding flatten
supplied_payload = (
  (90 ∷ []) ∷ (91 ∷ []) ∷ (92 ∷ []) ∷ [],
  (omega arith, (omega arith, (omega arith, tt))),
  refl,
  refl,
)

supplied_slice : Supplies (got (14 ∷ []) ∷ got (15 ∷ 16 ∷ []) ∷ []) (14 ∷ 15 ∷ 16 ∷ []) []
unfolding flatten
supplied_slice = ((14 ∷ []) ∷ (15 ∷ 16 ∷ []) ∷ [], (omega arith, (omega arith, tt)), refl, refl)

serve-read_example : Serves image_disk (server nbd_cmd_read 4 3) handle 4 refl λ s'.
    (s'.sent ≡ encode_reply handle ++ 14 ∷ 15 ∷ 16 ∷ [])
    × (s'.file.content ≡ image.content)
    × (s'.from_socket ≡ payload_calls)
serve-read_example =
    serve-read image_disk (server nbd_cmd_read 4 3) handle 4 refl 3 payload_calls []
      (wrote 2 ∷ wrote 1 ∷ []) [] (omega arith) (omega arith) (omega arith)
      (supplied nbd_cmd_read 4 3) supplied_slice
      (10 ∷ 6 ∷ [], (omega arith, omega arith, (omega arith, omega arith, refl)), refl)
      (2 ∷ 1 ∷ [], (omega arith, omega arith, (omega arith, omega arith, refl)), refl)

serve-write_example : Serves image_disk (server nbd_cmd_write 4 3) handle 4 refl λ s'.
    (s'.sent ≡ encode_reply handle)
    × (s'.file.content ≡ 10 ∷ 11 ∷ 12 ∷ 13 ∷ 90 ∷ 91 ∷ 92 ∷ 17 ∷ [])
    × (s'.from_socket ≡ eof ∷ [])
serve-write_example =
    serve-write image_disk (server nbd_cmd_write 4 3) handle 4 refl written payload_calls (eof ∷ [])
      [] (wrote 2 ∷ wrote 1 ∷ []) (omega arith) (omega arith) (omega arith)
      (supplied nbd_cmd_write 4 3) supplied_payload
      (1 ∷ 2 ∷ [], (omega arith, omega arith, (omega arith, omega arith, refl)), refl)
      (10 ∷ 6 ∷ [], (omega arith, omega arith, (omega arith, omega arith, refl)), refl)

-- What arrives behind the payload: a read command under another handle.
abbrev handle_again : List ℕ
handle_again = 9 ∷ 9 ∷ 9 ∷ 9 ∷ 9 ∷ 9 ∷ 9 ∷ 9 ∷ []

abbrev command_calls : List ReadCall
command_calls = map got (in_two (encode_request nbd_cmd_read handle_again 4 3)) ++ eof ∷ []

abbrev behind_calls : List ReadCall
behind_calls = got (90 ∷ 91 ∷ []) ∷ got (92 ∷ []) ∷ command_calls

abbrev reread_server : Server Image
reread_server = record (server nbd_cmd_write 4 3) {
  from_socket = map got (in_two (encode_request nbd_cmd_write handle 4 3)) ++ behind_calls;
  to_socket = wrote 10 ∷ wrote 6 ∷ wrote 16 ∷ wrote 3 ∷ [];
  from_file = λ p. got (90 ∷ []) ∷ got (91 ∷ 92 ∷ []) ∷ [];
}

supplied_write :
    Supplies reread_server.from_socket (encode_request nbd_cmd_write handle 4 3) behind_calls
unfolding be_bytes le_bytes flatten
supplied_write =
    (in_two (encode_request nbd_cmd_write handle 4 3), (omega arith, (omega arith, tt)), refl, refl)

supplied_behind : Supplies behind_calls written command_calls
unfolding flatten
supplied_behind = ((90 ∷ 91 ∷ []) ∷ (92 ∷ []) ∷ [], (omega arith, (omega arith, tt)), refl, refl)

supplied_read : Supplies command_calls (encode_request nbd_cmd_read handle_again 4 3) (eof ∷ [])
unfolding be_bytes le_bytes flatten
supplied_read = (
  in_two (encode_request nbd_cmd_read handle_again 4 3),
  (omega arith, (omega arith, tt)),
  refl,
  refl,
)

supplied_back :
    Supplies
      (got (90 ∷ []) ∷ got (91 ∷ 92 ∷ []) ∷ [])
      (take 3 (drop 4 (spliced 4 written image.content)))
      []
unfolding flatten
supplied_back = ((90 ∷ []) ∷ (91 ∷ 92 ∷ []) ∷ [], (omega arith, (omega arith, tt)), refl, refl)

serve-reread_example :
    (s' : Server Image) × (s'' : Server Image) × (serve image_disk reread_server ≡ done (tt, s'))
    × (serve image_disk s' ≡ done (tt, s''))
    × (s''.sent ≡ ([] ++ encode_reply handle) ++ (encode_reply handle_again ++ written))
    × (s''.file.content ≡ spliced 4 written image.content)
serve-reread_example =
    serve-reread image_disk reread_server handle handle_again 4 written behind_calls command_calls
      (eof ∷ []) [] [] (wrote 16 ∷ wrote 3 ∷ []) (wrote 3 ∷ []) [] refl refl (omega arith)
      (omega arith) (omega arith) supplied_write supplied_behind supplied_read supplied_back
      (1 ∷ 2 ∷ [], (omega arith, omega arith, (omega arith, omega arith, refl)), refl)
      (10 ∷ 6 ∷ [], (omega arith, omega arith, (omega arith, omega arith, refl)), refl)
      (16 ∷ [], (omega arith, omega arith, refl), refl)
      (3 ∷ [], (omega arith, omega arith, refl), refl)

on_socket_ready-IsTyped_example : IsTyped (rw_req (rw_of nbd_cmd_read handle 4 3 []))
on_socket_ready-IsTyped_example =
    on_socket_ready-IsTyped (server nbd_cmd_read 4 3)
      (record (server nbd_cmd_read 4 3) { from_socket = payload_calls })
      (rw_req (rw_of nbd_cmd_read handle 4 3 []))
      (on_socket_ready-read (server nbd_cmd_read 4 3) handle 4 3 payload_calls refl (omega arith)
        (omega arith) (supplied nbd_cmd_read 4 3))

nbd_rw_req_iff_example :
    (((nbd_rw_req (sent_request nbd_cmd_read handle 0x80000000 3) []).m_offset ≡ pos 0x80000000)
      ↔ (0x80000000 < 2 ^ 31))
    × (((nbd_rw_req (sent_request nbd_cmd_read handle 0x80000000 3) []).m_size ≡ pos 3)
        ↔ (3 < 2 ^ 31))
nbd_rw_req_iff_example =
    nbd_rw_req_iff nbd_cmd_read handle 0x80000000 3 [] (omega arith) (omega arith)

read_all-chunks_example :
    read_all (got (90 ∷ 91 ∷ []) ∷ got (92 ∷ []) ∷ eof ∷ []) 3 ≡ done (written, eof ∷ [])
unfolding flatten
read_all-chunks_example =
    read_all-chunks ((90 ∷ 91 ∷ []) ∷ (92 ∷ []) ∷ []) (eof ∷ []) (omega arith, (omega arith, tt))

write_all-Takes_example :
    write_all socket_sink (wrote 1 ∷ wrote 2 ∷ []) written (7 ∷ []) ≡ done (7 ∷ written, [])
write_all-Takes_example =
    write_all-Takes socket_sink (1 ∷ 2 ∷ []) [] written (7 ∷ [])
      (omega arith, omega arith, (omega arith, omega arith, refl))

-- Two writes, of one byte to 1 and of two bytes to 4.
interleaved_writes-done_example :
    (s' : Server Image) × (interleaved_writes image_disk
        (rw_of nbd_cmd_write handle 1 1 (50 ∷ []))
        (rw_of nbd_cmd_write handle 4 2 (60 ∷ 61 ∷ []))
        (server nbd_cmd_write 4 3)
      ≡ done (tt, s'))
    × (s'.file.content ≡ spliced 5 (60 ∷ 61 ∷ []) (spliced 4 (50 ∷ []) image.content))
    × (take 1 (drop 1 s'.file.content) ≡ take 1 (drop 1 image.content))
interleaved_writes-done_example =
    interleaved_writes-done image_disk (server nbd_cmd_write 4 3) handle handle 1 4 (50 ∷ [])
      (60 ∷ 61 ∷ []) (wrote 2 ∷ []) [] (omega arith) (omega arith)
      (1 ∷ [], (omega arith, omega arith, refl), refl)
      (2 ∷ [], (omega arith, omega arith, refl), refl)
