-- ===== src/Media/Decoder/Held.antt =====
-- Which packets a decoder holds and which it gives back (lib/media/decoder.cpp).
use chat_up.Base.{length, replicate, ℕ, zero, suc, ◌≡◌, false, Option, none, some, List, [], ◌∷◌}
use chat_up.Media.Decoder.{Decoder, Effect, listened, listener_removed, given_back, Decoded}

-- The packets that are given back, in order.
abbrev pub returned : List Effect → List ℕ
returned [] = []
returned (given_back p i ∷ fx) = i ∷ returned fx
returned (listened p ∷ fx) = returned fx
returned (listener_removed p i ∷ fx) = returned fx

-- The first of a list, as often as the list is long.
abbrev pub fronts : List ℕ → List ℕ
fronts [] = []
fronts (i ∷ is) = replicate (length (i ∷ is)) i

-- What a packet that the codec takes and that gives `n` frames leaves of the packets held, and what it
-- gives back of them.
abbrev pub kept : ℕ → List ℕ → List ℕ
kept zero is = is
kept (suc n) is = []

abbrev pub gone : ℕ → List ℕ → List ℕ
gone zero is = []
gone (suc n) is = fronts is

module _ {F C : Type 0} where
  -- The answer of `receive`: what was given back, and what is held.
  abbrev Accounts : List ℕ → List ℕ → Option (Decoded F C) → Type 0
  Accounts back held_now none = Unit
  Accounts back held_now (some r) =
      r.overflowed ≡ false → (returned r.effects ≡ back) × (r.decoder.holding_index ≡ held_now)
