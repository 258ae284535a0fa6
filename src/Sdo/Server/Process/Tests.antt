-- ===== src/Sdo/Server/Process/Tests.antt =====
-- pkg/sdo: the theorems on the server at concrete servers and messages.
use gocanopen.Base.{
  ℕ, ◌<◌, ◌≡◌, refl, inr, true, false, none, some, List, [], ◌∷◌, length, arith, replicate,
  has_bits,
}
use gocanopen.Can.{new_frame}
use gocanopen.Od.Stream.{has_attribute}
use gocanopen.Od.Entry.{Entry, Variable, variable, opened_stream, find_variable, is_domain}
use gocanopen.Sdo.Abort.{abort_toggle_bit}
use gocanopen.Sdo.Message.{State, is_abort, get_toggle, get_index, get_subindex}
use gocanopen.Sdo.Server.{Server, panics, ◌>>=◌}
use gocanopen.Od.Lookup.{entry_at, stored}
use gocanopen.Sdo.Server.Process.{serve}
use gocanopen.Sdo.Server.Process.Setup.{initial}
use gocanopen.Sdo.Server.Dictionary.{is_upload}
use gocanopen.Sdo.Server.Process.Refused.{
  IsRefused, no_variable, Refused, download_block, serve-IsRefused,
}
use gocanopen.Sdo.Server.Process.Offers.{Offers, download_request, upload_request}
use gocanopen.Sdo.Server.Process.ExpeditedDownload.{serve-download_request_string}
use gocanopen.Sdo.Server.Process.ExpeditedUpload.{Ends}
use gocanopen.Sdo.Server.Process.Expedited.{Exchanged, download-upload}
use gocanopen.Sdo.Server.Process.Segmented.{
  serve_all, segments, joined, segmented_request, download-joined,
}
use gocanopen.Sdo.Server.Process.Toggle.{GivenUp, downloads, serve_toggle}

abbrev variable_of : (n attribute : ℕ) → Variable
variable_of n attribute = record {
  value = replicate n 0;
  spare = [];
  data_type = 7;
  attribute = attribute;
  sub_index = 0;
}

abbrev entry_of : (index : ℕ) → Variable → Entry
entry_of index v = record { index = index; object = variable v; extension = none }

-- A number of four bytes, a string of ten and a value of sixteen.
abbrev number : Variable
number = variable_of 4 0x03

abbrev name : Variable
name = variable_of 10 0x83

abbrev wide : Variable
wide = variable_of 16 0x03

abbrev node : Server
node =
    record (initial (entry_of 0x2000 number ∷ entry_of 0x2001 name ∷ entry_of 0x2002 wide ∷ []) 5) {
      valid = true;
      nmt = 5;
      tx_buffer = new_frame 0x585 0 8;
    }

-- The node offers each of them.
offers :
    (index n attribute : ℕ)
    → entry_at node.od index ≡ some (entry_of index (variable_of n attribute))
    → (index < 65536) × (length (variable_of n attribute).value < 4294967296)
    → (has_bits attribute 0x01 ≡ true)
      × (has_bits attribute 0x02 ≡ true)
      × (has_bits attribute 0x03 ≡ true)
    → Offers node index 0 (entry_of index (variable_of n attribute)) 0 (variable_of n attribute)
unfolding opened_stream has_attribute find_variable is_domain
offers index n attribute found small access = record {
  idle = refl;
  short = small.0;
  entry = found;
  holds = record { found = refl; usable = refl; small = small.1 };
  default = refl;
  readable = access.0;
  writable = access.1;
  transferable = access.2;
  room = omega arith;
}

number-Offers : Offers node 0x2000 0 (entry_of 0x2000 number) 0 number
unfolding entry_at
number-Offers = offers 0x2000 4 0x03 refl (omega arith) (refl, refl, refl)

name-Offers : Offers node 0x2001 0 (entry_of 0x2001 name) 0 name
unfolding entry_at
name-Offers = offers 0x2001 10 0x83 refl (omega arith) (refl, refl, refl)

wide-Offers : Offers node 0x2002 0 (entry_of 0x2002 wide) 0 wide
unfolding entry_at
wide-Offers = offers 0x2002 16 0x03 refl (omega arith) (refl, refl, refl)

download-upload_example : Ends (Exchanged node 0x2000 0 0 (0xde ∷ 0xad ∷ 0xbe ∷ 0xef ∷ [])) (
    serve node (download_request 0x2000 0 (0xde ∷ 0xad ∷ 0xbe ∷ 0xef ∷ [])) >>= λ s'.
    serve s' (upload_request 0x2000 0))
unfolding opened_stream has_attribute
download-upload_example =
    download-upload node 0x2000 0 (entry_of 0x2000 number) 0 number (0xde ∷ 0xad ∷ 0xbe ∷ 0xef ∷ [])
      number-Offers refl (omega arith) refl

-- Three letters for a string of ten.
serve-download_request_string_example :
    serve node (download_request 0x2001 0 (0x61 ∷ 0x62 ∷ 0x63 ∷ [])) ≡ panics
unfolding opened_stream has_attribute
serve-download_request_string_example =
    serve-download_request_string node 0x2001 0 (entry_of 0x2001 name) 0 name
      (0x61 ∷ 0x62 ∷ 0x63 ∷ []) name-Offers refl (omega arith) (inr (omega arith))

abbrev sevens : List ℕ
sevens = 1 ∷ 2 ∷ 3 ∷ 4 ∷ 5 ∷ 6 ∷ 7 ∷ []

-- Sixteen bytes take two full segments and one of two bytes.
download-joined_example :
    Ends
      (λ t.
        (t.state ≡ State.idle)
        × (t.od ≡ stored node.od 0x2002 0 (joined (sevens ∷ sevens ∷ []) (8 ∷ 9 ∷ []))))
      (serve_all node
        (segmented_request 0x2002 0 16 ∷ segments false (sevens ∷ sevens ∷ []) (8 ∷ 9 ∷ [])))
unfolding opened_stream has_attribute
download-joined_example =
    download-joined node 0x2002 0 (entry_of 0x2002 wide) 0 wide (sevens ∷ sevens ∷ []) (8 ∷ 9 ∷ [])
      wide-Offers refl (refl, (refl, tt)) (omega arith) refl (omega arith)

abbrev loading : Server
loading = record node { state = State.download_segment_req }

serve_toggle_example : Ends (GivenUp loading abort_toggle_bit) (serve loading (0x10 ∷ sevens))
unfolding is_abort get_toggle
serve_toggle_example = serve_toggle loading (0x10 ∷ sevens) (downloads refl refl) refl (omega arith)

-- A block download to subindex 3 of an object that is a single variable.
abbrev strange : List ℕ
strange = 0xc6 ∷ 0x00 ∷ 0x20 ∷ 3 ∷ replicate 4 0

strange-IsRefused : IsRefused node.od 0x2000 3 false 0x06090011
unfolding entry_at find_variable
strange-IsRefused = no_variable {e = entry_of 0x2000 number} refl refl

serve-IsRefused_example : Ends (Refused node 0x2000 3 0x06090011) (serve node strange)
unfolding is_abort get_index get_subindex is_upload
serve-IsRefused_example =
    serve-IsRefused node strange State.download_blk_initiate_req 0x06090011 refl refl
      (download_block refl refl) strange-IsRefused
