-- ===== src/BookingService/Atomic.antt =====
-- What a booking promises of both databases, as one transaction: every segment of the route gets its
-- reservation at the node of its region.
use distributed_traffic_serv.Base.{Option, none, some, List, [], ◌∷◌, if◌then◌else◌}
use distributed_traffic_serv.BookingService.Store.{Schema, schema_of, Db}
use distributed_traffic_serv.BookingService.Saga.{
  RouteSegment, Config, Job, local_row, segment_row, is_local,
}

abbrev pub add_row : Job → RouteSegment → Option Schema → Db → Db
add_row job seg none db = db
add_row job seg (some schema) db = record db {
  reservations = local_row job schema seg ∷ db.reservations;
}

abbrev pub add_segment : Job → RouteSegment → Db → Db
add_segment job seg db = record db {
  segment_reservations = segment_row job seg ∷ db.segment_reservations;
}

abbrev pub book_segment : Config → Job → RouteSegment → Option Schema → Db × Db → Db × Db
book_segment config job seg schema (here, there) =
    if is_local config seg.region
    then (add_segment job seg (add_row job seg schema here), there)
    else (here, add_row job seg schema there)

-- The transaction, on the node and its peer.
unfoldable pub book_route : Config → Job → List RouteSegment → Db × Db → Db × Db
unfolding schema_of
book_route config job [] dbs = dbs
book_route config job (seg ∷ rest) dbs =
    book_route config job rest (book_segment config job seg (schema_of seg.region) dbs)
