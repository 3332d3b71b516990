-- ===== src/Media/RtpPacketizer/Stops.antt =====
-- lib/media/rtppacketizer.cpp: which listeners `stop` removes, and what becomes of a packet.
use chat_up.Base.{ℕ, true, false, ◌≡◌, refl, [], ◌∷◌}
use chat_up.Media.RtpPacketizer.{RtpPacketizer, listener_removed, start, stop, removal}

module _ {R C : Type 0} where
  -- After a start that succeeds, stop removes the listener that the start has registered and leaves the
  -- packetizer stopped.
  pub stop-start :
      (p index : ℕ) (z : RtpPacketizer R C)
      → ((stop (start p true index z).0).1 ≡ listener_removed p index ∷ [])
        × ((stop (start p true index z).0).0.is_started ≡ false)
  unfolding start stop removal
  stop-start p index z = (refl, refl)

  -- After two starts that succeed, stop removes the second listener only.
  pub stop-start_twice :
      (p q i j : ℕ) (z : RtpPacketizer R C)
      → (stop (start q true j (start p true i z).0).0).1 ≡ listener_removed q j ∷ []
  stop-start_twice p q i j z = (stop-start q j (start p true i z).0).0
