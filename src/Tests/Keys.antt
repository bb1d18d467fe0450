-- ===== src/Tests/Keys.antt =====
-- Runs of the idempotency keys of src/idempotency: a ticket is posted twice.
use nivara_api_nestjs.Idempotency.Histories.{
  claimed_once, Answered, InTime, Steps, done, then, completes,
}
use nivara_api_nestjs.Idempotency.Retries.{failure_releases, retried_once, Claims, quiet}
use nivara_api_nestjs.Shared.{
  refl, false, none, ◌+◌, ◌∷◌, arith, some, true, ◌++◌, ◌≡◌, String, [], Option, ℕ,
}
use nivara_api_nestjs.Errors.{primitive, validation_failed, fail, ok, throw, Result}
use nivara_api_nestjs.Tests.Samples.{agent_principal, acme_user, acme}
use nivara_api_nestjs.Idempotency.Records.{
  complete, IdempotentResponse, claimed_record, Records, IdempotencyKey, IdempotencyRecord,
  has_record,
}
use nivara_api_nestjs.Principal.{staff}
use mathlib.Core.Option.{none}
use nivara_api_nestjs.Idempotency.Interceptor.{
  Writes, single, idempotency_context_for, http_scope, intercept, AuthenticatedRequest,
  header_value,
}
use nivara_api_nestjs.Idempotency.Claim.{claim}
use Prim.Native.Nat.{ℕ}

abbrev retry_key : IdempotencyKey
retry_key = record { scope = "u:u-1|POST /tickets"; key = "k-1" }

-- A stand-in for the fingerprint of a body.
abbrev print_body : Option String → String
print_body none = "no-body"
print_body (some s) = s

abbrev post : AuthenticatedRequest String
post = record {
  is_http = true;
  method = "POST";
  original_url = "/tickets";
  key_header = single " k-1 ";
  principal = some (staff agent_principal);
  body = some "printer";
}

-- The handler counts the tickets that it creates.
abbrev create_ticket : ℕ → ℕ × Result (IdempotentResponse String)
create_ticket n = (n + 1, ok (record { code = 201; body = some "created" }))

abbrev refuse_ticket : ℕ → ℕ × Result (IdempotentResponse String)
refuse_ticket n = (n, throw (fail validation_failed))

post-Claims : Claims post acme_user retry_key
unfolding header_value http_scope idempotency_context_for
post-Claims = record {
  http = refl;
  post = refl;
  header = refl;
  short = refl;
  caller = staff agent_principal;
  is_caller = refl;
  scope = refl;
  allowed = refl;
}

-- Both writes succeed.
abbrev working : Writes
working = record { completes = none; releases = true }

retried_once_example :
    (after : Records String) × (intercept (quiet 1000) print_body working create_ticket post [] 5
      ≡ ((after, 6), ok (record { status = 201; body = some "created"; replayed = false })))
    × (intercept (quiet 2000) print_body working create_ticket post after 6
        ≡ ((after, 6), ok (record { status = 201; body = some "created"; replayed = true })))
unfolding has_record
retried_once_example =
    retried_once print_body post acme_user retry_key post-Claims create_ticket [] 1000 2000 5 6
      working refl create_ticket working (record { code = 201; body = some "created" }) refl refl
      (omega arith)

failure_releases_example :
    intercept (quiet 1000) print_body working refuse_ticket post [] 5
    ≡ (([], 5), throw (fail validation_failed))
unfolding has_record
failure_releases_example =
    failure_releases print_body post acme_user retry_key post-Claims refuse_ticket [] 1000 2000 5 5
      working refl (fail validation_failed) refl

-- The ticket is created, but the record of it fails: the key is released, and a retry would create
-- another ticket.
abbrev failing : Writes
failing = record { completes = some primitive; releases = true }

created_and_released :
    intercept (quiet 1000) print_body failing create_ticket post [] 5 ≡ (([], 6), throw primitive)
unfolding intercept has_record
created_and_released = refl

abbrev first_claim : IdempotencyRecord String
first_claim = claimed_record acme_user retry_key "printer" 1000

quiet-InTime : InTime acme retry_key 80000000 (quiet {B = String} 70000000)
quiet-InTime = record {
  between_steps = λ n rs. done;
  during_steps = λ n rs. done;
  in_time = λ n. omega arith;
}

answered_meanwhile :
    Steps acme retry_key 80000000
      ([] ++ first_claim ∷ [])
      (complete acme_user retry_key none ([] ++ first_claim ∷ []))
answered_meanwhile = then (completes acme_user retry_key none) done

claimed_once_example : Answered acme retry_key 80000000 (
    claim
      (quiet 70000000)
      acme_user
      retry_key
      (some "printer")
      (complete acme_user retry_key none ([] ++ first_claim ∷ [])))
unfolding has_record
claimed_once_example =
    claimed_once (quiet 70000000) acme_user acme_user retry_key "printer" (some "printer") 1000
      80000000 [] (complete acme_user retry_key none ([] ++ first_claim ∷ [])) refl (omega arith)
      refl quiet-InTime answered_meanwhile
