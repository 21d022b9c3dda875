-- ===== src/Lib.antt =====
-- go-acme-server: an ACME server (RFC 8555) as a Go library. A request handler changes accounts,
-- orders, authorizations and challenges in a store and queues tasks there; workers claim the tasks,
-- ask the host's validators and CA, and commit what came of it under the fence of their lease.
--
-- The parts and their files, with the code that each is about (paths from the repository's root):
-- Status       status.go: the lifecycle of each kind of resource. `CanTransition` is `can_transition`.
-- Problem      problem.go, the identifiers of identifier.go: problem documents without their JSON.
-- Resource     resource.go, work.go, issuer.go: the stored records, field by field.
-- Platform     the functions of the Go library that the program asks about texts, as parameters.
-- Text         strings.ToLower, TrimPrefix, Cut and SplitSeq, and loops over the bytes of a text.
-- Der          tnauthlist.go: the cursor over DER, `derReader`.
-- TnAuthList   tnauthlist.go: the checks of an authority list.
-- Identifiers  identifier.go: `Normalize` and `NormalizeIdentifiers`.
-- Exec         store.go: actions on a state that return a result or an error of the store. What was
--              written before an error stays written. A nil pointer that is read is `panicked`.
-- Table        a Go map: its laws and its size.
-- Memstore     memstore/memstore.go: each method of `Store` is an action of the same name in snake
--              case, in Memstore/Accounts, Orders, Authorizations, Certificates, Tasks, Work and Checks.
--              The mutex makes each one step. `ClaimTask` is `claim_task`, and a method that writes
--              through its argument returns what the argument points at afterwards.
-- Nonce        nonce/nonce.go: `Issue` and `Consume` with the queue that bounds the memory.
-- Server       the environment of handlers and workers: configuration, clock, host interfaces, random
--              IDs, and what the other requests and workers do to the store between two steps.
-- Answer       a handler's answer: a value, or the problem that the client receives.
-- Requests     request.go: `readSignedRequest` is `read_signed_request`.
-- Certs        csr.go, chain.go: the checks of a certificate request and of an issued chain.
-- Wire         wire.go: the views of the resources and the checks of a payload.
-- Renewal      renewal.go, ids.go: the predecessor of an order, and the renewal information.
-- Worker       worker.go and issuance.go: `process` with validation tasks and issuance tasks.
-- Orders       order.go, finalize.go, certificate.go: `serveNewOrder` is `serve_new_order`, and so on.
-- Accounts     account.go, eab.go: registration, updates, key changes, the order listing, bindings.
-- Revocation   revoke.go: `serveRevokeCert` with the recorded operation.
-- Settings     config.go, server.go: the checks of a configuration.
-- Responses    server.go: problem documents with their nonce, newNonce, the pages of the profiles.
-- Routes       server.go: where a request is routed.
-- Tests        runs on concrete inputs, and each theorem below at an input that meets its hypotheses.
--
-- Conventions. Times and durations are natural numbers of nanoseconds; where the source multiplies a
-- setting that has no bound (`withDefaults`, `retryDelay`), the wrap-around of a signed 64-bit duration
-- is written out. Revisions and fences wrap at 2^64. A handler is a function of the store, of the nonces and of a count of the steps made so far;
-- around each step other requests and workers may change both. The random source of the nonce manager
-- is the list of its answers, so the loop of `Issue` is recursion on that list. The loops of
-- `completeValidation`, `beginRevocation` and `recordRevocation` have their three or two rounds as
-- fuel and that of `retryDelay` its `Attempts - 1` rounds, as in the source; the loop over the further
-- fields of a telephone number range has as many rounds as bytes, and each round reads two at least;
-- every other loop goes through a list, so no fuel can run out. The host's validators, limiter,
-- policy, CA, clock and contexts are parameters that answer by the step, so nothing is assumed of two
-- answers in a row. The Go library (net/url, netip, idna, mail, time, base64, crypto/x509,
-- encoding/asn1) is a parameter too, and what is needed of it stands in a named hypothesis.
--
-- Not modelled: the parsers and signatures of internal/jws and slhdsa.go, whose results the handlers
-- take as parameters; HTTP headers, the directory and the JSON encoding; the network clients of
-- challenge/; the claim loop `Run`; refusal records, the wake-up of the worker and log lines; and
-- `LifetimeRenewal`, which computes with floating-point numbers.
pub mod Prelude
pub mod Exec
pub mod Table
pub mod Status
pub mod Problem
pub mod Resource
pub mod Platform
pub mod Text
pub mod Der
pub mod TnAuthList
pub mod Identifiers
pub mod Memstore
pub mod Nonce
pub mod Server
pub mod Answer
pub mod Requests
pub mod Worker
pub mod Certs
pub mod Wire
pub mod Renewal
pub mod Orders
pub mod Accounts
pub mod Revocation
pub mod Settings
pub mod Responses
pub mod Routes
pub mod Tests
