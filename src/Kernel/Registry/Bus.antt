-- ===== src/Kernel/Registry/Bus.antt =====
-- What `publish` delivers.
use srcport_substrate.Base.{
  ◌≤◌, ◌≡◌, refl, Bool, true, ◌&&◌, List, [], ◌∷◌, ◌++◌, contains, length, length-append, ltb, All,
  filter, map, arith, if◌then◌else◌,
}
use srcport_substrate.Proto.{Event}
use srcport_substrate.Kernel.State.{Sub}
use srcport_substrate.Kernel.Registry.{subscriber_buffer, try_send, deliver}

-- The subscribers that an event is for and that can take it, with it at the end of their queues,
-- and the others as they were.
abbrev pub takes : Event → Sub → Bool
takes e sub = sub.connected && ltb (length sub.queue) subscriber_buffer

abbrev pub delivered_to : Event → Sub → Sub
delivered_to e sub =
    if contains sub.topics e.topic then record sub { queue = sub.queue ++ e ∷ [] } else sub

abbrev pub stays : Event → Sub → Bool
stays e sub = if contains sub.topics e.topic then takes e sub else true

abbrev pub IsBounded : List Sub → Type 0
IsBounded = All (λ sub. length sub.queue ≤ subscriber_buffer)

deliver-eq :
    (e : Event) (subs : List Sub) → deliver e subs ≡ map (delivered_to e) (filter (stays e) subs)
unfolding deliver try_send
deliver-eq e [] = refl
deliver-eq e (sub ∷ subs) = ground (arith, deliver-eq e subs)

deliver-IsBounded : (e : Event) (subs : List Sub) → IsBounded subs → IsBounded (deliver e subs)
unfolding deliver try_send
deliver-IsBounded e [] h = tt
deliver-IsBounded e (sub ∷ subs) h =
    ground (arith, deliver-IsBounded e subs h.1, length-append sub.queue (e ∷ []))

-- A published event is put at the end of the queue of every subscriber of its topic that is
-- connected and has room; a subscriber of the topic that is not or has none is dropped; every
-- other subscriber is left as it was; and no queue grows beyond SUBSCRIBER_BUFFER.
pub deliver_lem :
    (e : Event) (subs : List Sub)
    → IsBounded subs
    → (deliver e subs ≡ map (delivered_to e) (filter (stays e) subs)) × IsBounded (deliver e subs)
deliver_lem e subs h = (deliver-eq e subs, deliver-IsBounded e subs h)
