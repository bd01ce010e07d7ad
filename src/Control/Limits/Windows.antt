-- ===== src/Control/Limits/Windows.antt =====
-- control/src/worker.ts: what a check of the two rate limits does to their windows.
use mesh_talk.Common.{
  ℕ, ◌+◌, ◌-◌, ◌≤◌, ◌<◌, ◌≡◌, refl, Bool, false, some, inl, inr, arith, text_eq, Bool-cases, nat_eq,
  beq_refl, if◌then◌else◌,
}
use mesh_talk.Common.Dict.{get, put}
use mesh_talk.Common.Exec.{ok, err, ◌>>=◌}
use mesh_talk.Control.Config.{
  max_signals_per_minute, max_peer_fetches_per_minute, max_control_messages_per_minute,
}
use mesh_talk.Control.State.{
  Socket, Field, ClientData, RateLimit, ControlRoom, Platform, write_client, write_rates, update,
  rate_limit_exceeded, ip_rate_limit_exceeded,
}
use mesh_talk.Control.Limits.{
  Budget, signals, peer_fetches, control, budget_of, open_window, count_message, over_limits,
  open_ip_window, count_ip_message, check_rate_limit,
}

module _ (p : Platform) (s : Socket) (type : Field) (r : ControlRoom) where
  -- the client and the limit of its address once the message is counted
  abbrev pub counted : ClientData
  counted = count_message (budget_of type) (open_window p.now (r.objects s))

  abbrev pub ip_counted : RateLimit
  ip_counted =
      count_ip_message (budget_of type) (open_ip_window p.now (get counted.ip r.rate_limits_by_ip))

  abbrev pub over_client : Bool
  over_client =
      over_limits counted.signals_in_window counted.control_messages_in_window
        counted.peer_fetches_in_window

  abbrev pub over_ip : Bool
  over_ip =
      over_limits ip_counted.signals_in_window ip_counted.control_messages_in_window
        ip_counted.peer_fetches_in_window

  abbrev pub client_counted : ControlRoom
  client_counted = record r { objects = update r.objects s counted }

  abbrev pub both_counted : ControlRoom
  both_counted = record r {
    objects = update r.objects s counted;
    rate_limits_by_ip = put counted.ip ip_counted r.rate_limits_by_ip;
  }

  pub check_rate_limit-eq : check_rate_limit p s type r ≡ (
      if over_client
      then (err rate_limit_exceeded, client_counted)
      else if over_ip
      then (err ip_rate_limit_exceeded, both_counted)
      else (ok tt, both_counted))
  unfolding check_rate_limit write_client write_rates ◌>>=◌
  check_rate_limit-eq = rw (beq_refl s) (elim (Bool-cases over_client) [
    | inl c ↦ rw c
    | inr c ↦ rw c (elim (Bool-cases over_ip) [ inl i ↦ rw i | inr i ↦ rw i ])
  ])

abbrev pub used : Budget → RateLimit → ℕ
used signals l = l.signals_in_window
used peer_fetches l = l.peer_fetches_in_window
used control l = l.control_messages_in_window

abbrev pub limit_of : Budget → ℕ
limit_of signals = max_signals_per_minute
limit_of peer_fetches = max_peer_fetches_per_minute
limit_of control = max_control_messages_per_minute

abbrev pub same_budget : Budget → Budget → ℕ
same_budget signals signals = 1
same_budget peer_fetches peer_fetches = 1
same_budget control control = 1
same_budget _ _ = 0

pub used-count :
    (b c : Budget) (l : RateLimit) → used b (count_ip_message c l) ≡ same_budget b c + used b l
unfolding count_ip_message
used-count signals signals l = omega arith
used-count signals peer_fetches l = omega arith
used-count signals control l = omega arith
used-count peer_fetches signals l = omega arith
used-count peer_fetches peer_fetches l = omega arith
used-count peer_fetches control l = omega arith
used-count control signals l = omega arith
used-count control peer_fetches l = omega arith
used-count control control l = omega arith

pub used-le_limit :
    (b : Budget) (l : RateLimit)
    → over_limits l.signals_in_window l.control_messages_in_window l.peer_fetches_in_window ≡ false
    → used b l ≤ limit_of b
unfolding over_limits
used-le_limit signals l h = ground arith
used-le_limit peer_fetches l h = ground arith
used-le_limit control l h = ground arith

pub window_kept :
    (b : Budget) (l : RateLimit) → (count_ip_message b l).window_started_at ≡ l.window_started_at
unfolding count_ip_message
window_kept signals l = refl
window_kept peer_fetches l = refl
window_kept control l = refl

pub ip_kept :
    (b : Budget) (now : ℕ) (d : ClientData) → (count_message b (open_window now d)).ip ≡ d.ip
unfolding count_message open_window
ip_kept signals now d = ground arith
ip_kept peer_fetches now d = ground arith
ip_kept control now d = ground arith

pub open_window_kept :
    (now : ℕ) (l : RateLimit) → now - l.window_started_at < 60_000 → open_ip_window now (some l) ≡ l
unfolding open_ip_window
open_window_kept now l h = ground arith
