-- ===== src/NotificationService/Telling.antt =====
-- Who is told of an event, and how.
use mathlib.Core.List.{Memᴰ}
use mathlib.Core.List.Memᴰ
use mathlib.Core.Path.{subst}
use distributed_traffic_serv.Base.{
  ℕ, ◌+◌, ◌≤◌, ◌≡◌, refl, Bool, true, false, ◌&&◌, List, [], ◌∷◌, ◌==◌, string_eq, eq_refl, truthy,
  count, mem-filter, arith,
}
use distributed_traffic_serv.BookingService.Saga.{Event}
use distributed_traffic_serv.Delivery.Repeats.{deliver-at_least_once}
use distributed_traffic_serv.NotificationService.Consumer.{
  Channel, push, sms, email, Notification, channels_of, notification, notifications_of,
  handle_event,
}

unfoldable pub channel_beq : Channel → Channel → Bool
channel_beq push push = true
channel_beq sms sms = true
channel_beq email email = true
channel_beq _ _ = false

channel_beq_refl : (c : Channel) → channel_beq c c ≡ true
unfolding channel_beq
channel_beq_refl push = refl
channel_beq_refl sms = refl
channel_beq_refl email = refl

-- Whether a row tells the driver of an event on a channel.
abbrev pub tells : Event → Channel → Notification → Bool
tells e c n =
    n.user_id == e.driver_id
    && n.booking_id == e.booking_id
    && n.event_type == e.routing_key
    && channel_beq c n.channel

count-pos :
    (p : Notification → Bool) (n : Notification) (rows : List Notification)
    → Memᴰ n rows
    → p n ≡ true
    → 1 ≤ count p rows
unfolding count
count-pos p n [] m h = elim m [ ]
count-pos p n (x ∷ rows) (Memᴰ.head e) h =
    let here : p x ≡ true = subst (λ y. p y ≡ true) e h in ground arith
count-pos p n (x ∷ rows) (Memᴰ.tail m) h = ground (arith, count-pos p n rows m h)

notification-tells : (e : Event) (now : ℕ) (c : Channel) → tells e c (notification e now c) ≡ true
notification-tells e now c =
    rw (eq_refl e.driver_id)
      (rw (eq_refl e.booking_id) (rw (eq_refl e.routing_key) (channel_beq_refl c)))

mem-notifications_of :
    (sends : Channel → Bool) (e : Event) (now : ℕ) (c : Channel)
    → truthy e.driver_id ≡ true
    → Memᴰ c (channels_of e.routing_key)
    → sends c ≡ true
    → Memᴰ (notification e now c) (notifications_of sends e now)
unfolding notifications_of
mem-notifications_of sends e now c named m h =
    rw named (Memᴰ.map (notification e now) (mem-filter sends (channels_of e.routing_key) m h))

-- Once an event with a driver is handled to its end, the driver is told of it once more at least, on
-- each channel that its type has and that delivers, however often the message was delivered.
pub handle_event-Tells :
    (sends : Channel → Bool) (attempts : List ℕ) (e : Event) (now : ℕ) (table : List Notification)
    (c : Channel)
    → truthy e.driver_id ≡ true
    → Memᴰ c (channels_of e.routing_key)
    → sends c ≡ true
    → (handle_event sends attempts e now table).1 ≡ true
    → count (tells e c) table + 1 ≤ count (tells e c) (handle_event sends attempts e now table).0
unfolding handle_event
handle_event-Tells sends attempts e now table c named m h done =
    let rows : List Notification = notifications_of sends e now in
    let one =
      count-pos (tells e c) (notification e now c) rows
        (mem-notifications_of sends e now c named m h) (notification-tells e now c) in
    omega (arith, one, deliver-at_least_once (tells e c) attempts rows table done)
