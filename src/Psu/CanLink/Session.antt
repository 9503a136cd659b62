-- ===== src/Psu/CanLink/Session.antt =====
-- What the link sends and what it reports: sequence numbers, commands, snapshots and health.
use fluid_edm.Base.{
  ℕ, suc, ◌+◌, ◌%◌, ◌≡◌, ◌⊎◌, refl, sym, ap, ◌∙◌, Bool, true, false, Option, none, some, List, [],
  ◌∷◌, ◌++◌, arith, ◌==◌, if◌then◌else◌,
}
use mathlib.Core.List.{append_assoc, append-nil}
use fluid_edm.Wire.Frame.{CanFrame, new_frame}
use fluid_edm.Psu.Messages.{
  SetModeBounds, IsSetModeBounds, Control, ctl_start_cut, ctl_stop_cut, ctl_clear_fault,
  id_set_mode_bounds, id_stats_agg, id_psu_status, protocol_version_supported,
}
use fluid_edm.Psu.Codec.{
  encode_set_mode_bounds, encode_control, decode_stats_agg, decode_psu_status,
}
use fluid_edm.Psu.Codec.Layout.{read_set_mode_bounds, read-encode_set_mode_bounds}
use fluid_edm.Psu.CanLink.{
  CanPsuLink, CanBus, send, new_link, next_seq, set_mode_bounds, start_cut, stop_cut, clear_fault,
  on_frame, latest_stats,
}

-- what happens to a link: the calls of the controller, and a frame that arrives
pub data LinkCall : Type 0 where
  sets_bounds : SetModeBounds → LinkCall
  starts stops clears : LinkCall
  receives : CanFrame → LinkCall

unfoldable pub do_link : CanPsuLink → LinkCall → CanPsuLink
do_link l (sets_bounds m) = (set_mode_bounds l m).0
do_link l starts = start_cut l
do_link l stops = stop_cut l
do_link l clears = clear_fault l
do_link l (receives f) = on_frame l f

unfoldable pub do_links : CanPsuLink → List LinkCall → CanPsuLink
do_links l [] = l
do_links l (c ∷ cs) = do_links (do_link l c) cs

-- the numbers that the calls of `set_mode_bounds` return, in order
unfoldable pub answers : CanPsuLink → List LinkCall → List ℕ
answers l [] = []
answers l (sets_bounds m ∷ cs) = (set_mode_bounds l m).1 ∷ answers (do_link l (sets_bounds m)) cs
answers l (c ∷ cs) = answers (do_link l c) cs

-- the bounds that are set, each under the number that it is due, from the count of earlier ones on
abbrev pub numbered : ℕ → List LinkCall → List SetModeBounds
numbered n [] = []
numbered n (sets_bounds m ∷ cs) = record m { seq = n % 65535 + 1 } ∷ numbered (suc n) cs
numbered n (c ∷ cs) = numbered n cs

abbrev pub AreBounds : List LinkCall → Type 0
AreBounds [] = Unit
AreBounds (sets_bounds m ∷ cs) = IsSetModeBounds m × AreBounds cs
AreBounds (c ∷ cs) = AreBounds cs

-- what the power supply reads in the frames that carry the identifier of SET_MODE_BOUNDS
abbrev pub bounds_read : List CanFrame → List SetModeBounds
bounds_read [] = []
bounds_read (f ∷ fs) =
    let rest = bounds_read fs in
    if f.id == id_set_mode_bounds then read_set_mode_bounds f ∷ rest else rest

-- The sequence number counts from 1 to 65535 and starts over at 1: it is never 0.
seq-next : (k : ℕ) → next_seq (k % 65535 + 1) ≡ suc k % 65535 + 1
unfolding next_seq
seq-next k = ground arith

bounds_id : (v : SetModeBounds) → ((encode_set_mode_bounds v).id == id_set_mode_bounds) ≡ true
unfolding encode_set_mode_bounds new_frame
bounds_id v = refl

bounds_read-own :
    (f : CanFrame) (fs : List CanFrame)
    → (f.id == id_set_mode_bounds) ≡ true
    → bounds_read (f ∷ fs) ≡ read_set_mode_bounds f ∷ bounds_read fs
bounds_read-own f fs h = rw h refl

control_id : (cmd : Control) (arg : ℕ) → ((encode_control cmd arg).id == id_set_mode_bounds) ≡ false
unfolding encode_control new_frame
control_id cmd arg = refl

-- A frame that arrives changes neither the bus nor the sequence number.
on_frame-quiet :
    (l : CanPsuLink) (f : CanFrame) → ((on_frame l f).bus ≡ l.bus) × ((on_frame l f).seq ≡ l.seq)
unfolding on_frame
on_frame-quiet l f = (ground arith, ground arith)

-- A decoder refuses every frame of another identifier.
stats_foreign : (f : CanFrame) → (f.id == id_stats_agg) ≡ false → decode_stats_agg f ≡ none
unfolding decode_stats_agg
stats_foreign f h = rw h

status_foreign : (f : CanFrame) → (f.id == id_psu_status) ≡ false → decode_psu_status f ≡ none
unfolding decode_psu_status
status_foreign f h = rw h

abbrev pub or_else {ℓ} : {A : Type ℓ} → Option A → Option A → Option A
or_else none b = b
or_else (some a) b = some a

-- the heartbeat's verdict on the protocol version, if the frame is a heartbeat
abbrev pub verdict : CanFrame → Option Bool
verdict f = elim (decode_psu_status f) [
  | none ↦ none
  | some st ↦ some (st.protocol_version == protocol_version_supported)
]

-- Whatever frame arrives, the snapshot is that of the frame if it decodes as STATS_AGG and else the
-- old one; a frame that decodes as PSU_STATUS sets the heartbeat and judges the protocol version, and
-- no other does; and the bus and the sequence number stay.
pub on_frame_lem :
    (l : CanPsuLink) (f : CanFrame)
    → (latest_stats (on_frame l f) ≡ or_else (decode_stats_agg f) (latest_stats l))
      × ((decode_psu_status f ≡ none)
            × ((on_frame l f).heartbeat_seen ≡ l.heartbeat_seen)
            × ((on_frame l f).protocol_ok ≡ l.protocol_ok)
          ⊎ ((on_frame l f).heartbeat_seen ≡ true) × (verdict f ≡ some (on_frame l f).protocol_ok))
      × ((on_frame l f).bus ≡ l.bus)
      × ((on_frame l f).seq ≡ l.seq)
unfolding on_frame latest_stats
on_frame_lem l f =
    (ground (arith, stats_foreign f), ground (arith, status_foreign f), ground arith, ground arith)

abbrev pub numbers : List SetModeBounds → List ℕ
numbers [] = []
numbers (m ∷ ms) = m.seq ∷ numbers ms

-- what the calls return and hand to the bus, when `k` bounds were set before
abbrev pub Sends : ℕ → CanPsuLink → List LinkCall → Type 0
Sends k l cs =
    (answers l cs ≡ numbers (numbered k cs))
    × ((fs : List CanFrame) × ((do_links l cs).bus.sent ≡ l.bus.sent ++ fs)
        × (bounds_read fs ≡ numbered k cs))

-- a control frame in front of what the later calls send
control-Sends :
    (k : ℕ) (l r : CanPsuLink) (cs : List LinkCall) (cmd : Control)
    → r.bus.sent ≡ l.bus.sent ++ (encode_control cmd 0 ∷ [])
    → Sends k r cs
    → (answers r cs ≡ numbers (numbered k cs))
      × ((fs : List CanFrame) × ((do_links r cs).bus.sent ≡ l.bus.sent ++ fs)
          × (bounds_read fs ≡ numbered k cs))
control-Sends k l r cs cmd e (said, (fs, sent, seen)) = (
  said,
  (
    encode_control cmd 0 ∷ fs,
    sent
        ∙ (ap (λ (x : List CanFrame). x ++ fs) e
            ∙ append_assoc l.bus.sent (encode_control cmd 0 ∷ []) fs),
    rw (control_id cmd 0) seen,
  ),
)

do_links-Sends :
    (k : ℕ) (l : CanPsuLink) (cs : List LinkCall)
    → l.seq ≡ k % 65535 + 1
    → AreBounds cs
    → Sends k l cs
unfolding do_links do_link answers set_mode_bounds start_cut stop_cut clear_fault send
do_links-Sends k l [] h bounds = (refl, ([], sym (append-nil l.bus.sent), refl))
do_links-Sends k l (sets_bounds m ∷ cs) h (fits, bounds) =
    let (said, (fs, sent, seen)) =
      do_links-Sends (suc k) (do_link l (sets_bounds m)) cs (ap next_seq h ∙ seq-next k) bounds in
    let v : SetModeBounds = record m { seq = l.seq } in
    let same : v ≡ record m { seq = k % 65535 + 1 } = ap (λ (n : ℕ). record m { seq = n }) h in
    let f = encode_set_mode_bounds v in
    let read : read_set_mode_bounds f ≡ v = read-encode_set_mode_bounds v (omega (arith, h)) in
    (
      ap (λ (n : ℕ). n ∷ answers (do_link l (sets_bounds m)) cs) h
          ∙ ap (λ (ns : List ℕ). (k % 65535 + 1) ∷ ns) said,
      (
        f ∷ fs,
        sent ∙ append_assoc l.bus.sent (f ∷ []) fs,
        bounds_read-own f fs (bounds_id v)
            ∙ (ap (λ (x : SetModeBounds). x ∷ bounds_read fs) (read ∙ same)
                ∙ ap (λ (xs : List SetModeBounds). record m { seq = k % 65535 + 1 } ∷ xs) seen),
      ),
    )
do_links-Sends k l (starts ∷ cs) h bounds =
    control-Sends k l (start_cut l) cs ctl_start_cut refl
      (do_links-Sends k (start_cut l) cs h bounds)
do_links-Sends k l (stops ∷ cs) h bounds =
    control-Sends k l (stop_cut l) cs ctl_stop_cut refl (do_links-Sends k (stop_cut l) cs h bounds)
do_links-Sends k l (clears ∷ cs) h bounds =
    control-Sends k l (clear_fault l) cs ctl_clear_fault refl
      (do_links-Sends k (clear_fault l) cs h bounds)
do_links-Sends k l (receives f ∷ cs) h bounds =
    let (bus, seq) = on_frame-quiet l f in
    let (said, (fs, sent, seen)) = do_links-Sends k (on_frame l f) cs (seq ∙ h) bounds in
    (said, (fs, sent ∙ ap (λ (b : CanBus). b.sent ++ fs) bus, seen))

-- Whatever bounds are set on a new link, and whatever cuts are started and stopped, faults cleared and
-- frames received between them, the calls of `set_mode_bounds` return 1, 2 and so on up to 65535, and
-- then 1 again; and the frames with the identifier of SET_MODE_BOUNDS that the bus gets are one for
-- each of these calls, in order, in which the power supply reads the caller's bounds under that
-- number; the bounds are in the ranges of their integer types.
pub set_mode_bounds_seq : (b : CanBus) (cs : List LinkCall) → AreBounds cs → Sends 0 (new_link b) cs
unfolding new_link
set_mode_bounds_seq b cs bounds = do_links-Sends 0 (new_link b) cs refl bounds
