-- ===== src/Network/Api/Handlers/Relayed.antt =====
-- lib/network/api/sdp.cpp: descriptions and candidates from one client to another.
use chat_up.Base.{string_eq}
use chat_up.Network.Json.{Json}
use chat_up.Base.Map
