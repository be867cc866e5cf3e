-- ===== src/Witnesses/Phases.antt =====
-- A run of a cycle, up to the request for the high watermarks.
use streamsight_agent.Base.{false, inl, refl, arith}
use streamsight_agent.Collector.Phases.{
  send, receive, close, await, await_or_done, metadata, list_groups, fetch_offsets,
  list_after_milli, list_start, list_committed, list_end, meta_done, groups_listed, committed_done,
  window_done, State, start, cluster_phase, list_phase, offsets_phase, window_phase, topics_phase,
  act, Reach, begin, later, after, is_enabled, note_send, count_down,
}
use streamsight_agent.Collector.Phases.Order.{FloorsAreIn, Reach-InOrder}

abbrev metadata_in : State
metadata_in =
    after
      (after (after (start false) cluster_phase (send metadata)) cluster_phase (receive metadata))
      cluster_phase (close meta_done)

abbrev groups_in : State
groups_in =
    after (after (after metadata_in list_phase (send list_groups)) list_phase (receive list_groups))
      list_phase (close groups_listed)

abbrev committed_in : State
committed_in =
    after
      (after
        (after
          (after (after groups_in offsets_phase (await meta_done)) offsets_phase
            (await groups_listed))
          offsets_phase (send fetch_offsets))
        offsets_phase (receive fetch_offsets))
      offsets_phase (close committed_done)

abbrev window_in : State
window_in =
    after
      (after
        (after (after committed_in window_phase (await meta_done)) window_phase
          (send list_after_milli))
        window_phase (receive list_after_milli))
      window_phase (close window_done)

abbrev ends_asked : State
ends_asked =
    after
      (after
        (after
          (after
            (after
              (after
                (after (after window_in topics_phase (await meta_done)) topics_phase
                  (send list_start))
                topics_phase (receive list_start))
              topics_phase (await_or_done committed_done))
            topics_phase (await_or_done window_done))
          topics_phase (send list_committed))
        topics_phase (receive list_committed))
      topics_phase (send list_end)

metadata_in-Reach : Reach 3 metadata_in
unfolding is_enabled note_send count_down
metadata_in-Reach =
    later
      (later (later begin (act cluster_phase (send metadata) refl refl))
        (act cluster_phase (receive metadata) refl refl))
      (act cluster_phase (close meta_done) refl refl)

groups_in-Reach : Reach 6 groups_in
unfolding is_enabled note_send count_down
groups_in-Reach =
    later
      (later (later metadata_in-Reach (act list_phase (send list_groups) refl refl))
        (act list_phase (receive list_groups) refl refl))
      (act list_phase (close groups_listed) refl refl)

committed_in-Reach : Reach 11 committed_in
unfolding is_enabled note_send count_down
committed_in-Reach =
    later
      (later
        (later
          (later (later groups_in-Reach (act offsets_phase (await meta_done) refl refl))
            (act offsets_phase (await groups_listed) refl refl))
          (act offsets_phase (send fetch_offsets) refl refl))
        (act offsets_phase (receive fetch_offsets) refl refl))
      (act offsets_phase (close committed_done) refl refl)

window_in-Reach : Reach 15 window_in
unfolding is_enabled note_send count_down
window_in-Reach =
    later
      (later
        (later (later committed_in-Reach (act window_phase (await meta_done) refl refl))
          (act window_phase (send list_after_milli) refl refl))
        (act window_phase (receive list_after_milli) refl refl))
      (act window_phase (close window_done) refl refl)

ends_asked-Reach : Reach 23 ends_asked
unfolding is_enabled note_send count_down
ends_asked-Reach =
    later
      (later
        (later
          (later
            (later
              (later
                (later (later window_in-Reach (act topics_phase (await meta_done) refl refl))
                  (act topics_phase (send list_start) refl refl))
                (act topics_phase (receive list_start) refl refl))
              (act topics_phase (await_or_done committed_done) refl refl))
            (act topics_phase (await_or_done window_done) refl refl))
          (act topics_phase (send list_committed) refl refl))
        (act topics_phase (receive list_committed) refl refl))
      (act topics_phase (send list_end) refl refl)

Reach-InOrder_example : FloorsAreIn ends_asked
unfolding note_send
Reach-InOrder_example = Reach-InOrder ends_asked-Reach 7 (omega arith) (inl (refl, refl))
