-- ===== src/Media/DataPipe.antt =====
-- lib/media/datapipe.h: a pool of `size` buffers that writers fill and listeners read. A method is a
-- function on the pipe, one critical section of `reader_mutex`; a callback is a value of type `C`.
pub mod System
mod Slots
pub mod Listeners
pub mod Quiet
pub mod Safety
pub mod Loop
mod Tests
use chat_up.Base.{
  ℕ, zero, suc, ◌+◌, ◌-◌, ◌^◌, Bool, true, false, Option, none, some, List, [], ◌∷◌, not, ◌&&◌,
  ◌||◌, ◌++◌, ltb, nat_beq, if◌then◌else◌, length, get_elem?, set,
}

pub record SubPipe (T : Type 0) : Type 0 where
  pub is_free : Bool
  pub ptr : T
  pub readings : ℕ

pub record DataPipe (T C : Type 0) : Type 0 where
  -- `std::map`, in the order of its keys
  pub listeners : List (ℕ × C)
  pub sem : ℕ
  pub subpipes : List (SubPipe T)
  pub remove_listener_queue : List ℕ
  pub add_listener_queue : List (C × ℕ)

-- What a hold comes to: no permit (a wait, or `std::nullopt` after the timeout), the
-- `std::logic_error` of `getFree`, or the data and its index.
pub data Hold (T C : Type 0) : Type 0 where
  overflow logic_error : Hold T C
  held : T → ℕ → DataPipe T C → Hold T C

-- A call of a listener: the callback, the data and the index.
pub record Call (T C : Type 0) : Type 0 where
  pub callback : C
  pub ptr : T
  pub index : ℕ

-- `--readings` on a `size_t`
unfoldable pub pred_word : ℕ → ℕ
pred_word zero = 2 ^ 64 - 1
pred_word (suc n) = n

module _ {T : Type 0} where
  fresh : List T → List (SubPipe T)
  fresh [] = []
  fresh (t ∷ ts) = record { is_free = true; ptr = t; readings = 0 } ∷ fresh ts

  renew : List T → List (SubPipe T) → List (SubPipe T)
  renew [] ss = ss
  renew ts [] = []
  renew (t ∷ ts) (s ∷ ss) = record s { ptr = t } ∷ renew ts ss

  -- the loop of `getFree`: the first free buffer, marked as taken
  unfoldable pub take_free : List (SubPipe T) → Option (T × ℕ × List (SubPipe T))
  take_free [] = none
  take_free (s ∷ ss) =
      let rest = take_free ss in
      if s.is_free
      then some (s.ptr, 0, record s { is_free = false } ∷ ss)
      else elim rest [ none ↦ none | some (t, i, rs) ↦ some (t, suc i, s ∷ rs) ]

module _ {C : Type 0} where
  -- listeners.emplace(key, callback): a key that is there keeps its callback
  emplace_listener : ℕ → C → List (ℕ × C) → List (ℕ × C)
  emplace_listener k c [] = (k, c) ∷ []
  emplace_listener k c ((j, d) ∷ rest) =
      if ltb k j
      then (k, c) ∷ (j, d) ∷ rest
      else if nat_beq k j
      then (j, d) ∷ rest
      else (j, d) ∷ emplace_listener k c rest

  -- listeners.erase(key)
  erase_listener : ℕ → List (ℕ × C) → List (ℕ × C)
  erase_listener k [] = []
  erase_listener k ((j, d) ∷ rest) = if nat_beq k j then rest else (j, d) ∷ erase_listener k rest

  drain_added : List (ℕ × C) → List (C × ℕ) → List (ℕ × C)
  drain_added ls [] = ls
  drain_added ls ((c, k) ∷ rest) = drain_added (emplace_listener k c ls) rest

  drain_removed : List (ℕ × C) → List ℕ → List (ℕ × C)
  drain_removed ls [] = ls
  drain_removed ls (k ∷ rest) = drain_removed (erase_listener k ls) rest

module _ {T C : Type 0} where
  -- DataPipe(const Constructor&, const Deleter&): one object for each buffer
  unfoldable pub init : List T → DataPipe T C
  unfolding fresh
  init objects = record {
    listeners = [];
    sem = length objects;
    subpipes = fresh objects;
    remove_listener_queue = [];
    add_listener_queue = [];
  }

  -- reset(constructor, deleter), with the objects that the constructor makes
  pub reset : List T → DataPipe T C → DataPipe T C
  unfolding renew
  reset objects p = record p { subpipes = renew objects p.subpipes }

  -- storedData(index); `none` is undefined behaviour
  pub stored_data : ℕ → DataPipe T C → Option T
  stored_data i p = elim (get_elem? p.subpipes i) [ none ↦ none | some s ↦ some s.ptr ]

  unfoldable pub get_free : DataPipe T C → Hold T C
  get_free p = elim (take_free p.subpipes) [
    | none ↦ logic_error
    | some (t, i, rest) ↦ held t i (record p { subpipes = rest })
  ]

  -- sem.acquire() and sem.try_acquire_for(duration); `none` is a wait, or the timeout
  unfoldable pub acquire : DataPipe T C → Option (DataPipe T C)
  acquire p = elim p.sem [ zero ↦ none | suc n ↦ some (record p { sem = n }) ]

  -- holdForWriting and tryHoldForWriting where no other thread comes between their two parts
  unfoldable pub try_hold_for_writing : DataPipe T C → Hold T C
  try_hold_for_writing p = elim (acquire p) [ none ↦ overflow | some q ↦ get_free q ]

  -- The index counter is static, shared by the pipes of one type: it comes in and goes out.
  pub on_data_changed : C → ℕ → DataPipe T C → DataPipe T C × ℕ
  on_data_changed c listener_free_index p = (
    record p { add_listener_queue = p.add_listener_queue ++ (c, suc listener_free_index) ∷ [] },
    suc listener_free_index,
  )

  pub listener_count : DataPipe T C → ℕ
  listener_count p = length p.listeners

  unfoldable pub remove_listener : ℕ → DataPipe T C → DataPipe T C
  remove_listener i p = record p { remove_listener_queue = p.remove_listener_queue ++ i ∷ [] }

  -- The two `while` loops of `unmapWriting`.
  unfoldable pub drain : DataPipe T C → DataPipe T C
  unfolding drain_added drain_removed emplace_listener erase_listener
  drain p = record p {
    listeners =
        drain_removed (drain_added p.listeners p.add_listener_queue) p.remove_listener_queue;
    add_listener_queue = [];
    remove_listener_queue = [];
  }

  unfoldable pub calls : T → ℕ → List (ℕ × C) → List (Call T C)
  calls t i [] = []
  calls t i ((k, c) ∷ rest) = record { callback = c; ptr = t; index = i } ∷ calls t i rest

  -- The second part of `unmapWriting`, with the calls that its loop over the listeners makes.
  unfoldable pub publish : ℕ → Bool → SubPipe T → DataPipe T C → DataPipe T C × List (Call T C)
  publish i notify_readers s p =
      if not notify_readers || nat_beq (length p.listeners) 0
      then (
        record p { subpipes = set p.subpipes i (record s { is_free = true }); sem = p.sem + 1 },
        [],
      )
      else (
        record p { subpipes = set p.subpipes i (record s { readings = length p.listeners }) },
        calls s.ptr i p.listeners,
      )

  -- Both parts of `unmapWriting` where no other `unmapWriting` comes between them, so that its loop finds
  -- the listeners that were counted; System has the parts apart. An index out of range is undefined
  -- behaviour in the source; here it only drains the queues.
  unfoldable pub unmap_writing : ℕ → Bool → DataPipe T C → DataPipe T C × List (Call T C)
  unmap_writing i notify_readers p = elim (get_elem? (drain p).subpipes i) [
    | none ↦ (drain p, [])
    | some s ↦ publish i notify_readers s (drain p)
  ]

  -- The branch of `unmapReading` on the buffer whose count has gone down.
  unfoldable pub settle : ℕ → SubPipe T → DataPipe T C → DataPipe T C
  settle i s p =
      if nat_beq s.readings 0 && not s.is_free
      then record p { subpipes = set p.subpipes i (record s { is_free = true }); sem = p.sem + 1 }
      else record p { subpipes = set p.subpipes i s }

  unfoldable pub unmap_reading : ℕ → DataPipe T C → DataPipe T C
  unmap_reading i p = elim (get_elem? p.subpipes i) [
    | none ↦ p
    | some s ↦ settle i (record s { readings = pred_word s.readings }) p
  ]
