-- ===== src/Tests/Running.antt =====
-- The laws of the running service on a small deployment.
use solana_compliance_relaye.Prelude.{none, List, [], ◌∷◌}
use solana_compliance_relaye.Domain.Status.{LastErrorType}
use solana_compliance_relaye.Domain.Transfer.{TransferRequest}
use solana_compliance_relaye.Runtime.{World}
use solana_compliance_relaye.Database.Table.{UniqueIds}
use solana_compliance_relaye.System.{Event}
use solana_compliance_relaye.System.Screened.{EachWaits}
use solana_compliance_relaye.System.Reach.{reached, reached_rows}
use solana_compliance_relaye.Tests.Fixtures.{request, sending_env, queued}

abbrev day : List Event
day =
    Event.load_blocklist
    ∷ Event.submit request
    ∷ Event.worker_round 10
    ∷ Event.manual_retry "new"
    ∷ Event.crank_round 60 10
    ∷ []

abbrev evening : World
evening = reached sending_env [] [] none [] day

reached_rows_example : UniqueIds evening.transfers × EachWaits evening.transfers
reached_rows_example = reached_rows sending_env [] [] none [] day

abbrev ready : TransferRequest
ready = record queued { last_error_type = LastErrorType.network_error }
