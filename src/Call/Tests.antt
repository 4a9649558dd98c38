-- ===== src/Call/Tests.antt =====
-- Runs of the call handlers, and each property of calls at concrete data.
use mesty_api.Common.{none, List, [], ◌∷◌, arith}
use mesty_api.Call.CallType.{audio, video}
use mesty_api.Call.CallStatus.{ringing, rejected}
use mesty_api.Call.Repository.{Call, CallDb}
use mesty_api.Call.Service.{accept_call, end_call}
use mesty_api.Call.Service.Validity.{AllValid}
use mesty_api.Call.Signaling.{call_initiate, call_accept, call_hangup}
use mesty_api.Call.Signaling.Sessions.{IsSound, Request, serve_all, serve_all-IsSound}
use mesty_api.Call.Signaling.Endings.{
  AcceptOutcome, EndOutcome, accept_call_outcome, end_call_outcome,
}
use mesty_api.Call.Signaling.Race.{Method, initiate, mark, end, perform_all, perform_all-AllValid}

abbrev no_calls : CallDb
no_calls = record { users = 1 ∷ 2 ∷ 3 ∷ []; calls = [] }

abbrev ringing_call : Call
ringing_call = record {
  id = 7;
  caller_id = 1;
  receiver_id = 2;
  call_type = video;
  status = ringing;
  started_at = none;
  ended_at = none;
  created_at = 10;
  updated_at = 11;
}

abbrev one_call : CallDb
one_call = record { users = 1 ∷ 2 ∷ 3 ∷ []; calls = ringing_call ∷ [] }

-- 1 calls 2, who accepts; 3 finds 2 busy; 1 hangs up.
abbrev evening : List Request
evening =
    record { fresh_id = 7; now = 10; user_id = 1; message = call_initiate 2 "video" "offer" }
    ∷ record { fresh_id = 8; now = 12; user_id = 2; message = call_accept 7 "answer" }
    ∷ record { fresh_id = 8; now = 13; user_id = 3; message = call_initiate 2 "audio" "offer" }
    ∷ record { fresh_id = 8; now = 20; user_id = 1; message = call_hangup 7 }
    ∷ []

no_calls-IsSound : IsSound no_calls
no_calls-IsSound = record {
  valid = tt;
  exclusive = record { unique = λ i. omega arith; single = λ u. omega arith };
}

serve_all-IsSound_example : IsSound (serve_all evening no_calls)
serve_all-IsSound_example = serve_all-IsSound evening no_calls no_calls-IsSound

accept_call_outcome_example : AcceptOutcome 12 7 2 one_call (accept_call 12 7 2 one_call)
accept_call_outcome_example = accept_call_outcome 12 7 2 one_call

end_call_outcome_example : EndOutcome 12 7 2 rejected one_call (end_call 12 7 2 rejected one_call)
end_call_outcome_example = end_call_outcome 12 7 2 rejected one_call

abbrev crossing : List Method
crossing = initiate 7 10 1 2 audio ∷ end 11 7 2 rejected ∷ mark 12 7 ∷ initiate 8 13 3 2 audio ∷ []

perform_all-AllValid_example : AllValid (perform_all crossing no_calls)
perform_all-AllValid_example = perform_all-AllValid crossing no_calls tt
