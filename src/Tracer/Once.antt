-- ===== src/Tracer/Once.antt =====
-- tracer.go: the `sync.Once` of `Close`, which no flush resets.
use lightstep_tracer_go.Tracer.Sections.{flush-Reaches}
use lightstep_tracer_go.Tracer.Ledger.{
  run_actions, act, Action, count_error, empty_ledger, Ledger, recording, starting, switching,
  ending, disabling, announcing, encoding,
}
use lightstep_tracer_go.Events.{
  tracer_is_disabled, tracer_closed, FlushErrorState, translate, transport, report,
}
use lightstep_tracer_go.Tracer.Flush.{flush, Run, first_report}
use lightstep_tracer_go.Collector.{Store, Pointer, ReportRequest}
use lightstep_tracer_go.Tracer.{
  Tracer, pre_flush, record_span, disable, post_flush, post_flush_sent, post_flush_failed, restore,
}
use lightstep_tracer_go.LogEncoder.{Library}
use lightstep_tracer_go.Base.{
  Text, List, ◌≡◌, ◌⊎◌, false, [], some, ◌∷◌, ap, ◌∙◌, sym, refl, arith, none,
}

close_called-restore :
    (t : Tracer) (state : FlushErrorState) → (restore t state).close_called ≡ t.close_called
unfolding restore
close_called-restore t translate = refl
close_called-restore t tracer_closed = refl
close_called-restore t tracer_is_disabled = refl
close_called-restore t transport = refl
close_called-restore t report = refl

-- No step of the ledger resets the `sync.Once` of `Close`.
close_called-act :
    (a : Action) (t : Tracer) (l : Ledger) → (act a (t, l)).0.close_called ≡ t.close_called
unfolding act record_span disable pre_flush first_report count_error post_flush post_flush_sent
    post_flush_failed restore
close_called-act (recording raw) t l = ground arith
close_called-act disabling t l = ground arith
close_called-act (starting now) t l = ground arith
close_called-act announcing t l = ground arith
close_called-act encoding t l = refl
close_called-act (switching mode) t l = refl
close_called-act (ending start end none) t l = refl
close_called-act (ending start end (some e)) t l =
    close_called-restore (record t { report_in_flight = false }) e.state

close_called-run_actions :
    (actions : List Action) (t : Tracer) (l : Ledger)
    → (run_actions actions (t, l)).0.close_called ≡ t.close_called
unfolding run_actions
close_called-run_actions [] t l = refl
close_called-run_actions (a ∷ actions) t l =
    let (t', l') = act a (t, l) in close_called-run_actions actions t' l' ∙ close_called-act a t l

module _ (lib : Library) (translate_request : Store → Pointer → Text ⊎ ReportRequest) where
  pub close_called-flush :
      (t : Tracer) (run : Run) (store : Store)
      → (flush lib translate_request t run store).0.close_called ≡ t.close_called
  close_called-flush t run store =
      let (actions, e) = flush-Reaches lib translate_request t run store in
      sym (ap (λ u. u.close_called) (e empty_ledger))
      ∙ close_called-run_actions actions t empty_ledger
