-- ===== src/Modbus/Transport/Complete.antt =====
-- What a session has sent when `complete` lets it pass.
use jinko_exporter.Prelude.{◌≡◌, ◌∙◌, Option, [], length, List, ok, arith}
use jinko_exporter.Modbus.Profile.{ReadId}
use jinko_exporter.Modbus.Transport.{ContextError, Io, ReadSession, complete}
use jinko_exporter.Modbus.Transport.Session.{
  IsOrderly, run_reads, run_reads-IsOrderly, run_reads-requests, complete_sent_all,
}

untouched-IsOrderly :
    (s : ReadSession)
    → length s.requests ≡ length s.plan
    → s.next ≡ 0
    → s.conn.sent ≡ []
    → IsOrderly s
untouched-IsOrderly s aligned start unsent = ground (arith, aligned, start, unsent)

-- A session with as many requests as reads in its plan, of which it has sent none: whatever reads are
-- then asked of it, in whatever order, and whatever the network does during each, if `complete` lets
-- it pass in the end, the frames that it has sent are all its requests, each once and in their order.
pub completed_sends_all :
    (s : ReadSession) (reads : List (ReadId × Io)) (ctx : Option ContextError)
    → length s.requests ≡ length s.plan
    → s.next ≡ 0
    → s.conn.sent ≡ []
    → (complete (run_reads s reads) ctx).1 ≡ ok tt
    → (run_reads s reads).conn.sent ≡ s.requests
completed_sends_all s reads ctx aligned start unsent h =
    let orderly = run_reads-IsOrderly s reads (untouched-IsOrderly s aligned start unsent) in
    let (_, _, _, all) = (complete_sent_all (run_reads s reads) ctx orderly).0 h in
    all ∙ run_reads-requests s reads
