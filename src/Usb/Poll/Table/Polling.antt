-- ===== src/Usb/Poll/Table/Polling.antt =====
-- deviceTable of src/mcu/max3421e/max3421e_usb.c, over the calls of usb_poll: the layer above is a
-- parameter.
use microbridge.Base.{ℕ, ◌≡◌, refl, some, arith, subst, sym, Option-cases, inl, inr}
use microbridge.Base.Run.{Cmd}
use microbridge.Base.Keeps.{IsKeeping, modify-IsKeeping}
use microbridge.Max3421e
use microbridge.Usb.Device.{EventType}
use microbridge.Usb.Host.{Host}
use microbridge.Usb.Poll.{Client, on_host}
use microbridge.Usb.Control.{set_address}
use microbridge.Usb.Poll.Keeping.{Steps}
use microbridge.Usb.Poll.Table.{
  entry-IsAddressed, table-IsKeeping, entries-IsKeeping, on_shield-IsKeeping, state-IsKeeping,
  fail-IsKeeping, vbus-IsKeeping, settle-IsKeeping, reset-IsKeeping, wait_reset-IsKeeping,
  wait_sof-IsKeeping, descriptor_size-IsKeeping, init-IsKeeping, Addressed,
}

module _ {S : Type 0} (client : Client S) where
  open client use {host, with_host, handler}

  abbrev pub Holds : S → Type 0
  Holds s = Addressed (host s)

  -- The layer above: its host is the one that was put there, and its event handler keeps the table.
  pub record IsOrderly : Type 0 where
    pub host-with_host : (s : S) (h : Host) → host (with_host s h) ≡ h
    pub keeps : (i : ℕ) (e : EventType) → IsKeeping Holds (handler i e)

module _ {S : Type 0} (client : Client S) (orderly : IsOrderly client) where
  open client use {host, with_host, handler}
  open orderly use {host-with_host, keeps}

  pub on_host-IsKeeping :
      {A : Type 0} {m : Cmd Host A}
      → IsKeeping Addressed m
      → IsKeeping (Holds client) (on_host client m)
  unfolding on_host
  on_host-IsKeeping {A} {m} keep = record {
    after = λ s t a e p. elim (Option-cases (m (host s))) [
      | inl f ↦ ground arith
      | inr ((b, h), f) ↦
          subst Addressed (sym (host-after s t h a b f e)) (keep.after (host s) h b f p)
    ];
  }
    where
      host-after :
          (s t : S) (h : Host) (a b : A)
          → m (host s) ≡ some (b, h)
          → on_host client m s ≡ some (a, t)
          → host t ≡ h
      host-after s t h a b f e = ground (arith, host-with_host s h)

  pub table-Steps : Steps client (Holds client)
  table-Steps = record {
    read = on_host-IsKeeping (table-IsKeeping λ h k a e. ground arith);
    poll = on_host-IsKeeping (on_shield-IsKeeping Max3421e.poll);
    address = λ fuel i d. on_host-IsKeeping (on_shield-IsKeeping (set_address fuel d i));
    start = λ fuel. on_host-IsKeeping (init-IsKeeping fuel);
    move = λ n. on_host-IsKeeping (state-IsKeeping n);
    fail = λ n. on_host-IsKeeping (fail-IsKeeping n);
    follow = on_host-IsKeeping vbus-IsKeeping;
    settle = on_host-IsKeeping settle-IsKeeping;
    reset = on_host-IsKeeping reset-IsKeeping;
    wait_reset = on_host-IsKeeping wait_reset-IsKeeping;
    wait_sof = on_host-IsKeeping wait_sof-IsKeeping;
    descriptor_size = λ fuel. on_host-IsKeeping (descriptor_size-IsKeeping fuel);
    occupy = λ i. on_host-IsKeeping (modify-IsKeeping λ h p. entry-IsAddressed h i _ (λ _. refl) p);
    put_back = λ d. on_host-IsKeeping (entries-IsKeeping λ h k a e j n t. ground arith);
    event = keeps;
  }
