-- ===== src/Voice/Examples.antt =====
-- The outbound buffer on concrete calls, and the theorems about it at concrete inputs.
use assist.Voice.Outbound.{Item, audio, control, Outbound, interrupt_audio, put_audio, queued}
use assist.Voice.Delivery.{
  Call, start, speak, tell, fetch, replay, WithinCapacity, is_after, barge_in_is_final,
}
use assist.Base.{true, false, ◌≡◌, refl, List, [], ◌∷◌, All, arith}

-- A full buffer of two items, in the first generation.
abbrev talking : Outbound
talking = record {
  capacity = 2;
  items = audio 1 "a" ∷ audio 1 "b" ∷ [];
  closed = false;
  generation = 1;
}

abbrev calls : List Call
calls = start ∷ speak 1 "c" ∷ fetch ∷ speak 3 "d" ∷ tell "stats" ∷ []

talking-WithinCapacity : WithinCapacity talking
talking-WithinCapacity = record { room = ground arith; within = ground arith }

barge_in_is_final_example :
    let after = replay calls (interrupt_audio talking) in
    ((rest : List Item) × ((interrupt_audio talking).items ≡ control "flush_uplink" ∷ rest))
    × All (λ x. is_after 1 x ≡ true) after.items
    × ((put_audio 1 "e" after).0 ≡ queued false)
barge_in_is_final_example = barge_in_is_final calls talking 1 "e" refl (ground arith)
