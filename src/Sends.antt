-- ===== src/Sends.antt =====
-- What the inline transfers that an action sends do to the balance of an account.
use eosio_system.Base.{◌≡◌, List, [], ◌∷◌, ◌++◌, ◌==◌, if◌then◌else◌}
use eosio_system.Base.Int.{ℤ, pos, ◌+ℤ◌, ◌-ℤ◌, int_laws, parts_eq, eq_of_parts}
use eosio_system.Host.{Name, Sent}

-- The tokens that transfers bring into an account, less those that they take out of it.
unfoldable pub net_in : Name → List Sent → ℤ
net_in account [] = pos 0
net_in account (Sent.transfer from to a ∷ l) =
    (if to == account then a.amount else pos 0)
    -ℤ (if from == account then a.amount else pos 0)
    +ℤ net_in account l
net_in account (a ∷ l) = net_in account l

pub net_in-append :
    (account : Name) (l m : List Sent)
    → net_in account (l ++ m) ≡ net_in account l +ℤ net_in account m
unfolding net_in
net_in-append account [] m = omega int_laws
net_in-append account (Sent.transfer from to a ∷ l) m =
    eq_of_parts _ _ (omega (int_laws, parts_eq _ _ (net_in-append account l m)))
net_in-append account (Sent.issue n a ∷ l) m = net_in-append account l m
net_in-append account (Sent.deferred_refund n d ∷ l) m = net_in-append account l m
net_in-append account (Sent.deferred_bidrefund n d ∷ l) m = net_in-append account l m
net_in-append account (Sent.cancel_deferred d ∷ l) m = net_in-append account l m
net_in-append account (Sent.buyresult a ∷ l) m = net_in-append account l m
net_in-append account (Sent.sellresult a ∷ l) m = net_in-append account l m
net_in-append account (Sent.rentresult a ∷ l) m = net_in-append account l m
net_in-append account (Sent.orderresult n a ∷ l) m = net_in-append account l m
net_in-append account (Sent.token_open n a ∷ l) m = net_in-append account l m
