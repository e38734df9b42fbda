-- ===== src/Idlc/Builder/Distinct.antt =====
-- Every interface that the builder puts out has methods with different, allowed names.
use kush_os_rewrite.Base.{ℕ, Bool, true, false, not, List, [], ◌∷◌, ◌==◌, Option, none, some, arith}
use kush_os_rewrite.Base.{◌≡◌, refl, ap, sym, ◌∙◌}
use mathlib.Core.Path.{subst}
use kush_os_rewrite.Idlc.Interface.{
  Text, Argument, create_argument, is_builtin_type, Method, create_method, Interface,
  create_interface,
}
use kush_os_rewrite.Idlc.Builder.{
  ok, thrown, follow, Builder, is_some, is_empty, is_context, first_char, has_method,
  begin_interface, begin_method, decorated, end_method, push_to, count_type, push_next_arg, Action,
  perform, perform_all, parameter, return, no_context, on_interface_name, on_method_name,
  on_arg_name, on_arg_type, on_decorator_key, on_decorator_value, on_include, on_interface_end,
  on_method_end, on_arg_end, on_decorator_close, on_async, on_open, on_close, ArgContext, lookup,
  identifier_key,
}
use kush_os_rewrite.Idlc.Builder.Inversion.{
  >>=-eq-ok, ok-injective, assert-eq-ok, or_throw-eq-ok, follow-eq-ok,
}
use kush_os_rewrite.Idlc.Builder.Named.{
  AreNamed, CurrentNamed, IsFresh, CanJoin, IsValid, AreNamed-append,
}
use kush_os_rewrite.Idlc.Builder.Steps.{
  begin_context-IsValid, end_context-IsValid, push_next_decorator-IsValid, end_interface-IsValid,
  set_method_async-IsValid, CanJoin-new, not-eq-true,
}

module _ (to_lower : ℕ → ℕ) (murmur_hash : Text → ℕ → ℕ) (stoull : Text → Option ℕ) where
  begin_interface-IsValid :
      (b b' : Builder) (name : Text)
      → begin_interface to_lower murmur_hash stoull b name ≡ ok b'
      → IsValid b
      → IsValid b'
  unfolding begin_interface CurrentNamed AreNamed create_interface
  begin_interface-IsValid b b' name h v =
      let (t1, h1) = assert-eq-ok (not (is_some b.current)) _ h in
      subst IsValid (ok-injective h1) (record {
        finished = v.finished;
        current = tt;
        method =
            CanJoin-new b.current_method b.current (create_interface murmur_hash name b.filename)
              refl v.method;
      })

  begin_method-IsValid :
      (b b' : Builder) (name : Text)
      → begin_method to_lower murmur_hash stoull b name ≡ ok b'
      → IsValid b
      → IsValid b'
  unfolding begin_method CanJoin IsFresh create_method
  begin_method-IsValid b b' name h v =
      let (t1, h1) = assert-eq-ok (is_some b.current) _ h in
      let (t2, h2) = assert-eq-ok (not (is_some b.current_method)) _ h1 in
      let (t3, h3) = or_throw-eq-ok (not (first_char name == 0x5f)) _ h2 in
      let (i, e4, h4) = >>=-eq-ok (follow b.current) _ h3 in
      let (t5, h5) = or_throw-eq-ok (not (has_method i.methods name)) _ h4 in
      subst IsValid (ok-injective h5) (record {
        finished = v.finished;
        current = v.current;
        method = (
          ground arith,
          subst (IsFresh name) (sym (follow-eq-ok b.current e4))
              (not-eq-true (has_method i.methods name) t5),
        );
      })

  decorated-name :
      (ds : List (Text × Text)) (m : Method) {m' : Method}
      → decorated to_lower murmur_hash stoull ds m ≡ ok m'
      → m'.name ≡ m.name
  unfolding decorated
  decorated-name ds m {m'} h = from_lookup (lookup ds identifier_key) h
    where
      from_text :
          (n : Option ℕ)
          → elim n [ none ↦ thrown | some n ↦ ok (record m { identifier = n }) ] ≡ ok m'
          → m'.name ≡ m.name
      from_text none e = cc
      from_text (some n) e = sym (ap (λ (t : Method). t.name) (ok-injective e))

      from_lookup :
          (o : Option Text)
          → elim o [
            | none ↦ ok m
            | some text ↦ elim (stoull text) [
              | none ↦ thrown
              | some n ↦ ok (record m { identifier = n })
            ]
          ]
            ≡ ok m'
          → m'.name ≡ m.name
      from_lookup none e = sym (ap (λ (t : Method). t.name) (ok-injective e))
      from_lookup (some text) e = from_text (stoull text) e

  end_method-IsValid :
      (b b' : Builder) → end_method to_lower murmur_hash stoull b ≡ ok b' → IsValid b → IsValid b'
  unfolding end_method CanJoin IsFresh CurrentNamed
  end_method-IsValid b b' h v =
      let (t1, h1) = assert-eq-ok (is_some b.current) _ h in
      let (t2, h2) = assert-eq-ok (is_some b.current_method) _ h1 in
      let (m, e3, h3) = >>=-eq-ok (follow b.current_method) _ h2 in
      let (m', e4, h4) = >>=-eq-ok (decorated to_lower murmur_hash stoull b.decorators m) _ h3 in
      let (i, e5, h5) = >>=-eq-ok (follow b.current) _ h4 in
      let is_i : b.current ≡ some i = follow-eq-ok b.current e5 in
      let named : AreNamed i.methods = subst CurrentNamed is_i v.current in
      let joins : CanJoin (some m) (some i) =
        subst (λ (c : Option Interface). CanJoin (some m) c) is_i
          (subst (λ (o : Option Method). CanJoin o b.current) (follow-eq-ok b.current_method e3)
            v.method) in
      let same_name : m'.name ≡ m.name = decorated-name b.decorators m e4 in
      subst IsValid (ok-injective h5) (record {
        finished = v.finished;
        current =
            AreNamed-append i.methods m' named
              (ap (λ (t : Text). has_method i.methods t) same_name ∙ joins.1)
              (λ e. joins.0 (ap first_char (sym same_name) ∙ e));
        method = tt;
      })

  push_to-name :
      (which : ArgContext) (m : Method) (a : Argument)
      → (push_to to_lower murmur_hash stoull which m a).name ≡ m.name
  push_to-name parameter m a = refl
  push_to-name return m a = refl
  push_to-name no_context m a = refl

  count_type-kept :
      (known : Bool) (c c' : Option Interface)
      → count_type to_lower murmur_hash stoull known c ≡ ok c'
      → (CurrentNamed c → CurrentNamed c') × ((name : Text) → IsFresh name c → IsFresh name c')
  unfolding CurrentNamed IsFresh
  count_type-kept true c c' h =
      let e : c ≡ c' = ok-injective h in (subst CurrentNamed e, λ name. subst (IsFresh name) e)
  count_type-kept false none c' h = cc
  count_type-kept false (some i) c' h =
      let e = ok-injective h in (λ n. subst CurrentNamed e n, λ name f. subst (IsFresh name) e f)

  push_next_arg-IsValid :
      (b b' : Builder)
      → push_next_arg to_lower murmur_hash stoull b ≡ ok b'
      → IsValid b
      → IsValid b'
  unfolding push_next_arg CanJoin
  push_next_arg-IsValid b b' h v =
      let a : Argument = create_argument to_lower b.next_arg_name b.next_arg_typename in
      let (t1, h1) = assert-eq-ok (is_some b.current_method) _ h in
      let (t2, h2) = assert-eq-ok (not (is_context b.arg_context no_context)) _ h1 in
      let (t3, h3) = assert-eq-ok (not (is_empty b.next_arg_name)) _ h2 in
      let (t4, h4) = assert-eq-ok (not (is_empty b.next_arg_typename)) _ h3 in
      let (c, e5, h5) =
        >>=-eq-ok (count_type to_lower murmur_hash stoull (is_builtin_type a) b.current) _ h4 in
      let (m, e6, h6) = >>=-eq-ok (follow b.current_method) _ h5 in
      let kept = count_type-kept (is_builtin_type a) b.current c e5 in
      let joins : CanJoin (some m) b.current =
        subst (λ (o : Option Method). CanJoin o b.current) (follow-eq-ok b.current_method e6)
          v.method in
      let same_name = push_to-name b.arg_context m a in
      subst IsValid (ok-injective h6) (record {
        finished = v.finished;
        current = kept.0 v.current;
        method = (
          λ e. joins.0 (ap first_char (sym same_name) ∙ e),
          subst (λ (t : Text). IsFresh t c) (sym same_name) (kept.1 m.name joins.1),
        );
      })

  perform-IsValid :
      (act : Action) (b b' : Builder)
      → perform to_lower murmur_hash stoull b act ≡ ok b'
      → IsValid b
      → IsValid b'
  unfolding perform
  perform-IsValid (on_interface_name name) b b' h v = begin_interface-IsValid b b' name h v
  perform-IsValid (on_method_name name) b b' h v = begin_method-IsValid b b' name h v
  perform-IsValid (on_arg_name name) b b' h v =
      subst IsValid (ok-injective h)
        (record { finished = v.finished; current = v.current; method = v.method })
  perform-IsValid (on_arg_type name) b b' h v =
      subst IsValid (ok-injective h)
        (record { finished = v.finished; current = v.current; method = v.method })
  perform-IsValid (on_decorator_key key) b b' h v =
      subst IsValid (ok-injective h)
        (record { finished = v.finished; current = v.current; method = v.method })
  perform-IsValid (on_decorator_value value) b b' h v =
      subst IsValid (ok-injective h)
        (record { finished = v.finished; current = v.current; method = v.method })
  perform-IsValid (on_include path) b b' h v =
      subst IsValid (ok-injective h)
        (record { finished = v.finished; current = v.current; method = v.method })
  perform-IsValid on_interface_end b b' h v = end_interface-IsValid b b' h v
  perform-IsValid on_method_end b b' h v = end_method-IsValid b b' h v
  perform-IsValid on_arg_end b b' h v = push_next_arg-IsValid b b' h v
  perform-IsValid on_decorator_close b b' h v = push_next_decorator-IsValid b b' h v
  perform-IsValid (on_async is_async) b b' h v = set_method_async-IsValid b b' is_async h v
  perform-IsValid (on_open which) b b' h v = begin_context-IsValid b b' which h v
  perform-IsValid (on_close which) b b' h v = end_context-IsValid b b' which h v

  -- From a valid builder, whatever actions the parser performs in whatever order, if no `assert` fails
  -- and nothing is thrown: every interface that is finished, and the current one, has methods with
  -- pairwise different names of which none begins with an underscore, and so that the current method
  -- can join them.
  pub perform_all-IsValid :
      (actions : List Action) (b b' : Builder)
      → IsValid b
      → perform_all to_lower murmur_hash stoull b actions ≡ ok b'
      → IsValid b'
  unfolding perform_all
  perform_all-IsValid [] b b' v h = subst IsValid (ok-injective h) v
  perform_all-IsValid (act ∷ actions) b b' v h =
      let (b1, e1, h1) = >>=-eq-ok (perform to_lower murmur_hash stoull b act) _ h in
      perform_all-IsValid actions b1 b' (perform-IsValid act b b1 e1 v) h1
