-- ===== src/Tests/Wire.antt =====
-- The codecs and the two links on concrete frames.
use fluid_edm.Base.{◌≡◌, refl, true, List, [], ◌∷◌, some, arith}
use fluid_edm.Base.Int.{negsuc}
use fluid_edm.Wire.Frame.{CanFrame}
use fluid_edm.Psu.Messages.{SetModeBounds, StatsAgg, no_bounds, no_stats}
use fluid_edm.Psu.Codec.{encode_set_mode_bounds, decode_stats_agg, decode_arc_burst}
use fluid_edm.Psu.Codec.Layout.{
  read_set_mode_bounds, read-encode_set_mode_bounds, stats_frame, decode_stats_agg-stats_frame,
}
use fluid_edm.Psu.CanLink.{
  CanBus, new_link, next_seq, set_mode_bounds, start_cut, stop_cut, on_frame, event_of, max_events,
}
use fluid_edm.Psu.CanLink.Queue.{receive, events_of, receive-new_link, last_n}
use fluid_edm.Psu.CanLink.Session.{
  LinkCall, sets_bounds, starts, stops, receives, do_link, answers, Sends, set_mode_bounds_seq,
}

abbrev rough_bounds : SetModeBounds
rough_bounds = record no_bounds {
  mode_id = 1;
  seq = 513;
  freq_max_khz = 200;
  on_time_max_ns = 60_000;
  polarity = 1;
}

abbrev warm_stats : StatsAgg
warm_stats = record no_stats {
  window_id = 70_000;
  n_open = 300;
  temp_gan_dc = negsuc 54;
  mode_id_active = 3;
}

abbrev idle_bus : CanBus
idle_bus = record { sent = [] }

abbrev warning_frame : CanFrame
warning_frame = record { id = 0x202; len = 2; fd = true; brs = true; data_bytes = 7 ∷ 1 ∷ [] }

read-encode_set_mode_bounds_example :
    read_set_mode_bounds (encode_set_mode_bounds rough_bounds) ≡ rough_bounds
read-encode_set_mode_bounds_example = read-encode_set_mode_bounds rough_bounds (omega arith)

decode_stats_agg-stats_frame_example : decode_stats_agg (stats_frame warm_stats) ≡ some warm_stats
decode_stats_agg-stats_frame_example = decode_stats_agg-stats_frame warm_stats (omega arith)

receive-new_link_example :
    (receive (new_link idle_bus) (warning_frame ∷ warning_frame ∷ [])).events
    ≡ last_n max_events (events_of (warning_frame ∷ warning_frame ∷ []))
receive-new_link_example = receive-new_link idle_bus (warning_frame ∷ warning_frame ∷ [])

-- bounds, a cut, a warning, and other bounds
abbrev busy_calls : List LinkCall
busy_calls =
    sets_bounds rough_bounds ∷ starts ∷ receives warning_frame ∷ sets_bounds no_bounds ∷ stops ∷ []

set_mode_bounds_seq_example : Sends 0 (new_link idle_bus) busy_calls
set_mode_bounds_seq_example = set_mode_bounds_seq idle_bus busy_calls (omega arith)

busy_answers : answers (new_link idle_bus) busy_calls ≡ 1 ∷ 2 ∷ []
unfolding answers do_link new_link set_mode_bounds start_cut stop_cut on_frame next_seq event_of
    decode_arc_burst
busy_answers = refl
