-- ===== src/Relay/Posting.antt =====
-- Where the handlers `requests`, `grants` and `versions` of apps/relay/src/routes.rs put a message.
use z_bacs.Prelude.{
  ◌≡◌, refl, sym, ap, ◌∙◌, not, ◌||◌, List, [], ◌∷◌, ◌++◌, All, ok, none, Result, subst, refuse_if,
  arith, Bool, err,
}
use z_bacs.Prelude.Bytes.{Bytes, bytes_beq, bytes_beq_iff}
use z_bacs.Proto.Messages.{
  Kind, ErrorCode, unauthenticated, AccessRequest, GrantMsg, VersionMsg, access_request, grant_msg,
  version_msg,
}
use z_bacs.Proto.Signed.{Signed}
use z_bacs.Relay.State.{
  Relay, Inbox, Instant, Queued, new, enqueue, route_for, take_nonce, take_quota, pop_while,
  overdue,
}
use z_bacs.Relay.Handler.{Handler, ◌>>=◌, continue, bind_lift, bind_attempt, pure}
use z_bacs.Relay.Replay.{modify_then}
use z_bacs.Relay.Routes.{Wire, Readings, Answer, authenticate, requests, grants, versions}
use z_bacs.Relay.Operations.{Operation, perform_all}
use z_bacs.Relay.Authentication.{authenticate-Authentic}
use z_bacs.Relay.Routing.{Forgets, asked, answer_to, route_for-asked}
use z_bacs.Relay.Queues.{delivery, waiting}
use z_bacs.Relay.Delivery.{enqueue-waiting}

-- The inbox ends with the posted body.
abbrev pub Posted : Inbox → Kind → Bytes → Bytes → Readings → Relay → Type 0
Posted i kind body to t r =
    (before : List Queued) × (waiting i r
      ≡ before ++ (delivery kind body t.queue_unix (t.id_for to) t.queued ∷ []))

enqueue-Posted :
    (i : Inbox) (kind : Kind) (body to : Bytes) (t : Readings) (r : Relay)
    → Posted i kind body to t (enqueue i kind body t.queue_unix (t.id_for to) t.queued r)
enqueue-Posted i kind body to t r = (
  pop_while (overdue t.queued) (waiting i r),
  enqueue-waiting i kind body t.queue_unix (t.id_for to) t.queued r,
)

continue-ok :
    {A B : Type 0} (x : Relay × Result ErrorCode A) (f : A → Handler B) {s : Relay} {b : B}
    → continue x f ≡ (s, ok b)
    → (u : Relay) × (a : A) × (x ≡ (u, ok a)) × (f a u ≡ (s, ok b))
continue-ok (u, ok a) f h = (u, a, refl, h)
continue-ok (u, err e) f h = cc

bind_any :
    {A B : Type 0} (m : Handler A) (f : A → Handler B) (r : Relay) {s : Relay} {b : B}
    → (m >>= f) r ≡ (s, ok b)
    → (u : Relay) × (a : A) × (m r ≡ (u, ok a)) × (f a u ≡ (s, ok b))
unfolding ◌>>=◌
bind_any m f r h = continue-ok (m r) f h

pure-state : (a b : Answer) (r s : Relay) → pure a r ≡ (s, ok b) → r ≡ s
unfolding pure
pure-state a b r s h = ap (λ y. y.0) h

own_kid :
    (a b : Bytes) (other : Bool) {u : Unit {0}}
    → refuse_if (not (bytes_beq a b) || other) unauthenticated ≡ ok u
    → a ≡ b
own_kid a b other h = ground (arith, bytes_beq_iff a b)

nonce-routes :
    (n : Bytes) (now : Instant) (r s : Relay)
    → take_nonce n now r ≡ (s, ok tt)
    → s.request_routes ≡ r.request_routes
unfolding take_nonce
nonce-routes n now r s h = ground arith

quota-routes :
    (kid : Bytes) (now : Instant) (r s : Relay)
    → take_quota kid now r ≡ (s, ok tt)
    → s.request_routes ≡ r.request_routes
unfolding take_quota
quota-routes kid now r s h = sym (ap (λ x. x.0.request_routes) h)

route-same :
    (n : Bytes) (now : Instant) (r s : Relay)
    → s.request_routes ≡ r.request_routes
    → (route_for n now s).1 ≡ (route_for n now r).1
unfolding route_for
route-same n now r s same = ground (arith, same)

-- The posts that go to an inbox, and their handlers.
pub data Post : Type 0 where
  request grant version : Post

abbrev pub handler : Wire → Post → Bytes → Readings → Handler Answer
handler w request body t = requests w body t
handler w Post.grant body t = grants w body t
handler w version body t = versions w body t

-- Where a post goes that is answered with an acceptance: a request, which its own device has signed,
-- and a new version to the inbox of the owner that it names; a grant to that of the device that last
-- asked with its request nonce.
abbrev pub Goes : Wire → Bytes → Readings → List Operation → Relay → Post → Type 0
Goes w body t ops s request =
    (x : Signed × AccessRequest) × (u : Relay) × (authenticate w (access_request w.access_request)
        body t (perform_all ops new)
      ≡ (u, ok x))
    × (x.1.device_kid ≡ x.0.kid)
    × Posted (Inbox.owner x.1.owner) Kind.req body x.1.owner t s
Goes w body t ops s Post.grant =
    (x : Signed × GrantMsg) × (u : Relay) × (authenticate w (grant_msg w.grant_msg) body t
        (perform_all ops new)
      ≡ (u, ok x))
    × (to : Bytes) × (answer_to t.looked_up (asked x.1.request_nonce ops none) ≡ ok to)
    × Posted (Inbox.device to) Kind.grant body to t s
Goes w body t ops s version =
    (x : Signed × VersionMsg) × (u : Relay) × (authenticate w (version_msg w.version_msg) body t
        (perform_all ops new)
      ≡ (u, ok x))
    × Posted (Inbox.owner x.1.owner) Kind.version body x.1.owner t s

requests-Goes :
    (w : Wire) (body : Bytes) (t : Readings) (ops : List Operation) (s : Relay) (a : Answer)
    → requests w body t (perform_all ops new) ≡ (s, ok a)
    → Goes w body t ops s request
unfolding requests
requests-Goes w body t ops s a h =
    let (u, x, passed, h₁) = bind_any _ _ (perform_all ops new) h in
    let (_, own, h₂) = bind_lift _ _ u h₁ in
    let (_, _, h₃) = bind_lift _ _ u h₂ in
    let h₄ = modify_then _ _ u h₃ in
    let h₅ = modify_then _ _ _ h₄ in
    let h₆ = modify_then _ _ _ h₅ in
    (
      x,
      u,
      passed,
      own_kid x.1.device_kid x.0.kid _ own,
      subst (Posted (Inbox.owner x.1.owner) Kind.req body x.1.owner t) (pure-state _ a _ s h₆)
          (enqueue-Posted (Inbox.owner x.1.owner) Kind.req body x.1.owner t _),
    )

versions-Goes :
    (w : Wire) (body : Bytes) (t : Readings) (ops : List Operation) (s : Relay) (a : Answer)
    → versions w body t (perform_all ops new) ≡ (s, ok a)
    → Goes w body t ops s version
unfolding versions
versions-Goes w body t ops s a h =
    let (u, x, passed, h₁) = bind_any _ _ (perform_all ops new) h in
    let (_, _, h₂) = bind_lift _ _ u h₁ in
    let (_, _, h₃) = bind_lift _ _ u h₂ in
    let h₄ = modify_then _ _ u h₃ in
    (
      x,
      u,
      passed,
      subst (Posted (Inbox.owner x.1.owner) Kind.version body x.1.owner t) (pure-state _ a _ s h₄)
          (enqueue-Posted (Inbox.owner x.1.owner) Kind.version body x.1.owner t u),
    )

grants-Goes :
    (w : Wire) (body : Bytes) (t : Readings) (ops : List Operation) (s : Relay) (a : Answer)
    → All (Forgets t.looked_up) ops
    → grants w body t (perform_all ops new) ≡ (s, ok a)
    → Goes w body t ops s Post.grant
unfolding grants
grants-Goes w body t ops s a forgets h =
    let r = perform_all ops new in
    let (u, x, passed, h₁) = bind_any _ _ r h in
    let (v, to, routed, h₂) = bind_attempt _ _ u h₁ in
    let h₃ = modify_then _ _ v h₂ in
    let one = authenticate-Authentic w (grant_msg w.grant_msg) body t r u x.0 x.1 passed in
    let same =
      nonce-routes x.0.nonce t.arrived one.metered u one.not_replayed
      ∙ quota-routes x.0.kid t.arrived r one.metered one.within_quota in
    let n = x.1.request_nonce in
    (
      x,
      u,
      passed,
      to,
      sym (route-same n t.looked_up r u same ∙ route_for-asked n t.looked_up ops forgets)
          ∙ ap (λ y. y.1) routed,
      subst (Posted (Inbox.device to) Kind.grant body to t) (pure-state _ a _ s h₃)
          (enqueue-Posted (Inbox.device to) Kind.grant body to t v),
    )

-- After a post that the relay accepts, whatever operations have run on it since it was new, the inbox
-- that the message is for ends with it: for a request, which is signed by the device that it names,
-- and for a new version that of the owner that the message names, and for a grant that of the device
-- which last asked with its request nonce, less than a day ago. What was forgotten in between
-- was forgotten no later than the post arrives.
pub handler-Goes :
    (w : Wire) (p : Post) (body : Bytes) (t : Readings) (ops : List Operation) (s : Relay)
    (a : Answer)
    → All (Forgets t.looked_up) ops
    → handler w p body t (perform_all ops new) ≡ (s, ok a)
    → Goes w body t ops s p
handler-Goes w request body t ops s a forgets h = requests-Goes w body t ops s a h
handler-Goes w Post.grant body t ops s a forgets h = grants-Goes w body t ops s a forgets h
handler-Goes w version body t ops s a forgets h = versions-Goes w body t ops s a h
