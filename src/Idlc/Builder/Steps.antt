-- ===== src/Idlc/Builder/Steps.antt =====
-- The actions that need no other project's function keep the names different.
use kush_os_rewrite.Base.{Bool, true, false, not, [], Option, none, some}
use kush_os_rewrite.Base.{◌≡◌, refl}
use mathlib.Core.Path.{subst}
use kush_os_rewrite.Idlc.Interface.{Method, Interface}
use kush_os_rewrite.Idlc.Builder.{
  ok, follow, Builder, is_some, is_empty, is_context, has_method, end_interface, set_method_async,
  begin_context, end_context, push_next_decorator, no_context, ArgContext, lookup,
}
use kush_os_rewrite.Idlc.Builder.Inversion.{
  >>=-eq-ok, ok-injective, assert-eq-ok, or_throw-eq-ok, follow-eq-ok,
}
use kush_os_rewrite.Idlc.Builder.Named.{
  AreNamed, CurrentNamed, IsFresh, CanJoin, IsValid, AllNamed-append,
}

pub begin_context-IsValid :
    (b b' : Builder) (which : ArgContext) → begin_context b which ≡ ok b' → IsValid b → IsValid b'
unfolding begin_context
begin_context-IsValid b b' which h v =
    let (t1, h1) = assert-eq-ok (is_some b.current) _ h in
    let (t2, h2) = assert-eq-ok (is_some b.current_method) _ h1 in
    let (t3, h3) = assert-eq-ok (is_context b.arg_context no_context) _ h2 in
    subst IsValid (ok-injective h3)
      (record { finished = v.finished; current = v.current; method = v.method })

pub end_context-IsValid :
    (b b' : Builder) (which : ArgContext) → end_context b which ≡ ok b' → IsValid b → IsValid b'
unfolding end_context
end_context-IsValid b b' which h v =
    let (t1, h1) = assert-eq-ok (is_some b.current) _ h in
    let (t2, h2) = assert-eq-ok (is_some b.current_method) _ h1 in
    let (t3, h3) = assert-eq-ok (is_context b.arg_context which) _ h2 in
    subst IsValid (ok-injective h3)
      (record { finished = v.finished; current = v.current; method = v.method })

pub push_next_decorator-IsValid :
    (b b' : Builder) → push_next_decorator b ≡ ok b' → IsValid b → IsValid b'
unfolding push_next_decorator
push_next_decorator-IsValid b b' h v =
    let (t1, h1) = assert-eq-ok (not (is_empty b.next_decorator_key)) _ h in
    let (t2, h2) = assert-eq-ok (not (is_empty b.next_decorator_value)) _ h1 in
    let (t3, h3) = or_throw-eq-ok (not (is_some (lookup b.decorators b.next_decorator_key))) _ h2 in
    subst IsValid (ok-injective h3)
      (record { finished = v.finished; current = v.current; method = v.method })

CanJoin-alone : (o : Option Method) (c : Option Interface) → CanJoin o c → CanJoin o none
unfolding CanJoin IsFresh
CanJoin-alone none c j = tt
CanJoin-alone (some m) c j = (j.0, tt)

pub end_interface-IsValid : (b b' : Builder) → end_interface b ≡ ok b' → IsValid b → IsValid b'
unfolding end_interface CurrentNamed
end_interface-IsValid b b' h v =
    let (t1, h1) = assert-eq-ok (is_some b.current) _ h in
    let (i, e2, h2) = >>=-eq-ok (follow b.current) _ h1 in
    let named : AreNamed i.methods = subst CurrentNamed (follow-eq-ok b.current e2) v.current in
    subst IsValid (ok-injective h2) (record {
      finished = AllNamed-append b.all_ids i v.finished named;
      current = tt;
      method = CanJoin-alone b.current_method b.current v.method;
    })

pub set_method_async-IsValid :
    (b b' : Builder) (is_async : Bool)
    → set_method_async b is_async ≡ ok b'
    → IsValid b
    → IsValid b'
unfolding set_method_async CanJoin
set_method_async-IsValid b b' is_async h v =
    let (t1, h1) = assert-eq-ok (is_some b.current_method) _ h in
    let (m, e2, h2) = >>=-eq-ok (follow b.current_method) _ h1 in
    subst IsValid (ok-injective h2) (record {
      finished = v.finished;
      current = v.current;
      method =
          subst (λ (o : Option Method). CanJoin o b.current) (follow-eq-ok b.current_method e2)
            v.method;
    })

pub CanJoin-new :
    (o : Option Method) (c : Option Interface) (i : Interface)
    → i.methods ≡ []
    → CanJoin o c
    → CanJoin o (some i)
unfolding CanJoin IsFresh has_method
CanJoin-new none c i e j = tt
CanJoin-new (some m) c i e j = (j.0, rw e refl)

pub not-eq-true : (b : Bool) → not b ≡ true → b ≡ false
not-eq-true false h = refl
not-eq-true true h = cc
