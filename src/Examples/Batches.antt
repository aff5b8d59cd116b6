-- ===== src/Examples/Batches.antt =====
-- internal/ingest at concrete inputs: a batch with a report and a malformed event.
use event_stream_platform.Prelude.{◌≡◌, refl, List, [], ◌∷◌, arith}
use event_stream_platform.Prelude.Int.{pos}
use event_stream_platform.Event.Types.{Bytes, Rejection, invalid, not_valid}
use event_stream_platform.Event.Float.{units}
use event_stream_platform.Event.Validate.{validate, validate_clock}
use event_stream_platform.Event.Accept.{accept, build, identify, marshal, field_of}
use event_stream_platform.Broker.{produce, failed}
use event_stream_platform.Ingest.Handler.{
  Options, Request, submitted, status_of, authorized, trim_prefix,
}
use event_stream_platform.Ingest.Submit.{
  batch, SubmitEnv, Edge, handle_submit, submit_events, publish_all, judge_all, judge,
}
use event_stream_platform.Ingest.Settled.{
  Durable, Reads, handle_submit-Durable, handle_submit_refused,
}
use event_stream_platform.Examples.Fixtures.{codec, at, fine, fine-FateLaws}

abbrev pub options : Options
options = record {
  topic = "vehicle.events";
  source = "ingest";
  api_key = "secret";
  max_body_bytes = pos 1000;
  max_batch_size = pos 10;
}

abbrev pub two_events : List Bytes
two_events = (0 ∷ at 50 ∷ 3 ∷ []) ∷ (5 ∷ []) ∷ []

abbrev pub env : SubmitEnv
env = record {
  codec = codec;
  read_body = λ limit body. batch two_events;
  minted = λ i. "id-2";
  now = at 100;
  produce = fine;
}

abbrev pub request : Request
request = record { api_key = "secret"; authorization = ""; body = 1 ∷ [] }

abbrev stranger : Request
stranger = record { api_key = ""; authorization = "Bearer guess"; body = 1 ∷ [] }

abbrev pub edge : Edge
edge = record { log = []; requests = []; rejected = 0; produced = 0; batch_sizes = [] }

abbrev pub refusals : List Rejection
refusals =
    record { index = 1; field = ""; reason = invalid (record { field = ""; reason = not_valid }) }
    ∷ []

pub accepted_two : (handle_submit options env request edge).0 ≡ submitted 1 refusals
unfolding handle_submit authorized submit_events judge_all judge publish_all accept validate units
    validate_clock identify build marshal field_of produce failed
accepted_two = refl

handle_submit-Durable_example :
    (raws : List Bytes) × (Reads options env request raws
      × Durable options env raws 1 refusals edge (handle_submit options env request edge).1)
handle_submit-Durable_example =
    handle_submit-Durable options env request edge 1 refusals fine-FateLaws accepted_two

stranger_status : status_of (handle_submit options env stranger edge).0 ≡ 401
unfolding handle_submit authorized trim_prefix
stranger_status = refl

handle_submit_refused_example : (handle_submit options env stranger edge).1.log ≡ []
handle_submit_refused_example =
    handle_submit_refused options env stranger edge (λ h. absurd (ground (arith, stranger_status)))
      (λ h. absurd (ground (arith, stranger_status)))
