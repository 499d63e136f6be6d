-- ===== src/Auth/Identity.antt =====
-- The keys and the profile of crates/zbacs-auth/src/setup.rs over the calls of a device's life.
use z_bacs.Prelude.{
  true, not, if◌then◌else◌, ◌≡◌, refl, sym, ◌∙◌, ap, subst, inl, inr, Option, none, some, Result,
  ok, err, Bool-cases, arith, ok_or,
}
use z_bacs.Prelude.Steps.{lift, next, lift-cases, fail_if-cases}
use z_bacs.Prelude.Bytes.{Bytes}
use z_bacs.Auth.Setup.{
  SetupError, KeyName, same_name, Device, put_key, Curves, Platform, DeviceKeys, fresh,
  stored_or_fresh, key_error, platform, secret, x25519, ed25519, x25519_keys, ed25519_keys,
}

same_name-eq : (n j : KeyName) → same_name n j ≡ true → n ≡ j
same_name-eq n j h = ground arith

same_name_self : (n : KeyName) → same_name n n ≡ true
same_name_self n = ground arith

-- A step that may store new keys and does nothing else.
pub record Draws (before after : Device) : Type 0 where
  pub keys_stay : (n : KeyName) (b : Bytes) → before.keys n ≡ some b → after.keys n ≡ some b
  pub same_file : after.file ≡ before.file

Draws-refl : (d : Device) → Draws d d
Draws-refl d = record { keys_stay = λ n b h. h; same_file = refl }

pub Draws-trans : (a b c : Device) → Draws a b → Draws b c → Draws a c
Draws-trans a b c f g = record {
  keys_stay = λ n x h. g.keys_stay n x (f.keys_stay n x h);
  same_file = g.same_file ∙ f.same_file;
}

put_key-Draws : (n : KeyName) (s : Bytes) (d : Device) → d.keys n ≡ none → Draws d (put_key n s d)
put_key-Draws n s d new = record {
  keys_stay = λ j b h. elim (Bool-cases (same_name n j)) [
    | inl is ↦ absurd (ground (arith, new, h, ap d.keys (same_name-eq n j is)))
    | inr other ↦ rw other h
  ];
  same_file = refl;
}

-- A step of the key store: what it leaves, and that what it gives is stored.
pub data Gives (n : KeyName) (before : Device) : Device × Result SetupError Bytes → Type 0 where
  given :
      {after : Device} {s : Bytes}
      → Draws before after
      → after.keys n ≡ some s
      → Gives n before (after, ok s)
  refused : {after : Device} {e : SetupError} → Draws before after → Gives n before (after, err e)

fresh-Gives : (p : Platform) (n : KeyName) (d : Device) → d.keys n ≡ none → Gives n d (fresh p n d)
unfolding fresh
fresh-Gives p n d new =
    lift-cases (Gives n d) (ok_or (p.draws n) key_error) _ d (λ _. refused (Draws-refl d))
      (λ s _.
        fail_if-cases (Gives n d) (not (p.puts n)) (platform "keychain write") _ d
          (λ _. refused (Draws-refl d))
          (λ _.
            given (put_key-Draws n s d new)
              (ap (λ b. if b then some s else d.keys n) (same_name_self n))))

stored_or_fresh-Gives :
    (p : Platform) (n : KeyName) (o : Option Bytes) (d : Device)
    → d.keys n ≡ o
    → Gives n d (stored_or_fresh p n o d)
unfolding stored_or_fresh
stored_or_fresh-Gives p n (some s) d is = given (Draws-refl d) is
stored_or_fresh-Gives p n none d is = fresh-Gives p n d is

secret-Gives : (p : Platform) (n : KeyName) (d : Device) → Gives n d (secret p n d)
unfolding secret
secret-Gives p n d =
    fail_if-cases (Gives n d) (not (p.gets n)) (platform "keychain read") _ d
      (λ _. refused (Draws-refl d)) (λ _. stored_or_fresh-Gives p n (d.keys n) d refl)

-- A stored secret whose public key is this.
pub record PubOf (g : Bytes → Result SetupError DeviceKeys) (d : Device) (n : KeyName)
    (public : Bytes) : Type 0 where
  pub pair : DeviceKeys
  pub stored : d.keys n ≡ some pair.secret
  pub derived : g pair.secret ≡ ok pair
  pub public_is : pair.public ≡ public

-- The same for a pair of keys.
pub data Yields (g : Bytes → Result SetupError DeviceKeys) (n : KeyName) (before : Device)
    : Device × Result SetupError DeviceKeys → Type 0 where
  yields :
      {after : Device} {k : DeviceKeys}
      → Draws before after
      → PubOf g after n k.public
      → Yields g n before (after, ok k)
  fails : {after : Device} {e : SetupError} → Draws before after → Yields g n before (after, err e)

inverted :
    {g : Bytes → Result SetupError DeviceKeys} {n : KeyName} {d t : Device} {k : DeviceKeys}
    → Yields g n d (t, ok k)
    → Draws d t × PubOf g t n k.public
inverted (yields x h) = (x, h)

drawn :
    {g : Bytes → Result SetupError DeviceKeys} {n : KeyName} {d t : Device} {e : SetupError}
    → Yields g n d (t, err e)
    → Draws d t
drawn (fails x) = x

derives :
    (g : Bytes → Result SetupError DeviceKeys) (n : KeyName) (d : Device)
    (r : Device × Result SetupError Bytes)
    → ((s : Bytes) (k : DeviceKeys) → g s ≡ ok k → k.secret ≡ s)
    → Gives n d r
    → Yields g n d (next r (λ s. lift (g s)))
derives g n d r keeps (refused x) = fails x
derives g n d r keeps (given {after = t} {s = s} x is) = cases (g s) refl
  where
    cases : (y : Result SetupError DeviceKeys) → g s ≡ y → Yields g n d (t, y)
    cases (err e) h = fails x
    cases (ok k) h =
        let same = keeps s k h in
        yields x (record {
          pair = k;
          stored = is ∙ ap some (sym same);
          derived = ap g same ∙ h;
          public_is = refl;
        })

x25519_keys-secret :
    (c : Curves) (s : Bytes) {k : DeviceKeys} → x25519_keys c s ≡ ok k → k.secret ≡ s
unfolding x25519_keys
x25519_keys-secret c s h = ground arith

ed25519_keys-secret :
    (c : Curves) (s : Bytes) {k : DeviceKeys} → ed25519_keys c s ≡ ok k → k.secret ≡ s
unfolding ed25519_keys
ed25519_keys-secret c s h = ground arith

module _ (c : Curves) where
  x25519-Yields :
      (p : Platform) (n : KeyName) (d : Device) → Yields (x25519_keys c) n d (x25519 c p n d)
  unfolding x25519
  x25519-Yields p n d =
      derives (x25519_keys c) n d (secret p n d) (λ s k h. x25519_keys-secret c s h)
        (secret-Gives p n d)

  ed25519-Yields :
      (p : Platform) (n : KeyName) (d : Device) → Yields (ed25519_keys c) n d (ed25519 c p n d)
  unfolding ed25519
  ed25519-Yields p n d =
      derives (ed25519_keys c) n d (secret p n d) (λ s k h. ed25519_keys-secret c s h)
        (secret-Gives p n d)

  pub x25519-ok :
      (p : Platform) (n : KeyName) (d : Device) {t : Device} {k : DeviceKeys}
      → x25519 c p n d ≡ (t, ok k)
      → Draws d t × PubOf (x25519_keys c) t n k.public
  x25519-ok p n d h = inverted (subst (Yields (x25519_keys c) n d) h (x25519-Yields p n d))

  pub x25519-err :
      (p : Platform) (n : KeyName) (d : Device) {t : Device} {e : SetupError}
      → x25519 c p n d ≡ (t, err e)
      → Draws d t
  x25519-err p n d h = drawn (subst (Yields (x25519_keys c) n d) h (x25519-Yields p n d))

  pub ed25519-ok :
      (p : Platform) (n : KeyName) (d : Device) {t : Device} {k : DeviceKeys}
      → ed25519 c p n d ≡ (t, ok k)
      → Draws d t × PubOf (ed25519_keys c) t n k.public
  ed25519-ok p n d h = inverted (subst (Yields (ed25519_keys c) n d) h (ed25519-Yields p n d))

  pub ed25519-err :
      (p : Platform) (n : KeyName) (d : Device) {t : Device} {e : SetupError}
      → ed25519 c p n d ≡ (t, err e)
      → Draws d t
  ed25519-err p n d h = drawn (subst (Yields (ed25519_keys c) n d) h (ed25519-Yields p n d))

pub PubOf-Draws :
    (g : Bytes → Result SetupError DeviceKeys) (d t : Device) (n : KeyName) (b : Bytes)
    → Draws d t
    → PubOf g d n b
    → PubOf g t n b
PubOf-Draws g d t n b x h = record {
  pair = h.pair;
  stored = x.keys_stay n h.pair.secret h.stored;
  derived = h.derived;
  public_is = h.public_is;
}

pub PubOf-keys :
    (g : Bytes → Result SetupError DeviceKeys) (d t : Device) (n : KeyName) (b : Bytes)
    → t.keys ≡ d.keys
    → PubOf g d n b
    → PubOf g t n b
PubOf-keys g d t n b is h = record {
  pair = h.pair;
  stored = ap (λ k. k n) is ∙ h.stored;
  derived = h.derived;
  public_is = h.public_is;
}
