-- ===== src/Media/Decoder/Tests.antt =====
-- The theorem on the packets of a decoder that holds two packets and gets the packet 4, of which two
-- frames come (lib/media/decoder.cpp).
use chat_up.Base.{true, false, some, String, [], ◌∷◌}
use chat_up.Media.DataPipe
use chat_up.Media.DataPipe.{DataPipe, calls}
use chat_up.Media.Decoder.{Decoder, Decoded, given_back}

abbrev holding_two : Decoder String String
holding_two = record {
  is_initialized = true;
  input = some 9;
  input_listen_index = some 1;
  out = DataPipe.init ("a" ∷ "b" ∷ []);
  holding_index = 3 ∷ 2 ∷ [];
}

abbrev holding_next : Decoded String String
holding_next = record {
  decoder = record holding_two { holding_index = 4 ∷ [] };
  effects = given_back 9 3 ∷ given_back 9 3 ∷ [];
  calls = [];
  overflowed = false;
}
