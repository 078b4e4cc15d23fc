-- ===== src/Tests/Delivery.antt =====
-- A delivery to a node that has no session yet and then stores the record.
use neuromem.Prelude.{false, refl, some, [], ◌∷◌, includes, ◌==◌, if◌then◌else◌}
use neuromem.Json.{object, empty, get}
use neuromem.Uuid.{is_record_id}
use neuromem.CoreClient.{CoreError, replied, refused}
use neuromem.RetryQueue.Writes.{record_id_of}
use neuromem.Router.Delivery.{Core, deliver}
use neuromem.Router.Settled.{Settled, deliver-Settled}
use neuromem.Tests.Queue.{write, busy, busy-IsConsistent, busy-pending}

abbrev not_found : CoreError
not_found = record { code = "http_404"; retryable = false; http_status = some 404 }

-- The first request fails with 404; the later ones get an empty object, which is no new session.
abbrev without_session : Core
without_session target request n = if n == 0 then refused not_found else replied (object empty)

deliver-Settled_example :
    Settled busy
      (record_id_of write)
      "east"
      (deliver without_session ("east" ∷ []) write "east" empty 9 busy)
unfolding includes record_id_of get is_record_id
deliver-Settled_example =
    deliver-Settled without_session ("east" ∷ []) write "east" empty 9 busy refl
      (busy-IsConsistent, refl, busy-pending)
