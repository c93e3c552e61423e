-- ===== src/Api/Cart/Visits.antt =====
-- A visitor's POST and DELETE of the cart, in src/frontend/pages/api/cart.ts.
use opentelemetry_demo_mb3r.Prelude.{String, ◌≡◌, ◌≢◌, ap, ◌∙◌, some, List, [], ◌∷◌, Forall₂}
use opentelemetry_demo_mb3r.Proto.{CartItem, AddItemRequest, Cart}
use opentelemetry_demo_mb3r.Calls.{Call, Failure, response, error, Services}
use opentelemetry_demo_mb3r.Promise.{
  fulfilled, failed, run, calls, run-waiting, run-resolved, run-rejected, calls-waiting,
  calls-rejected,
}
use opentelemetry_demo_mb3r.Http.{get, post, delete, Request, product_cart, cart, empty, Response}
use opentelemetry_demo_mb3r.Api.Cart.{cart_switch, cart_handler}
use opentelemetry_demo_mb3r.Api.Cart.Contents.{session_of, run-get_cart}

-- What the frontend relies on: the service holds a list of items for each user; adding an item and
-- emptying act on the list of that user and on no other, and reading changes nothing. The user that
-- an answer names is free: the answer for a user without a cart, or with an emptied one, may name
-- none. `put` is how an item is added to a list, as a new one or to the quantity of one there.
pub record CartContract {S : Type 0} (services : Services S) : Type 0 where
  pub held : S → String → Cart
  pub put : CartItem → List CartItem → List CartItem
  pub reads : (s : S) (u : String) → services (Call.get_cart u) s ≡ (response (held s u), s)
  pub adds :
      (s : S) (u : String) (item : CartItem)
      → (s' : S) × (services (Call.add_item u (some item)) s ≡ (response tt, s'))
        × ((held s' u).items ≡ put item (held s u).items)
        × ((v : String) → v ≢ u → held s' v ≡ held s v)
  pub empties :
      (s : S) (u : String)
      → (s' : S) × (services (Call.empty_cart u) s ≡ (response tt, s'))
        × ((held s' u).items ≡ [])
        × ((v : String) → v ≢ u → held s' v ≡ held s v)

module _ {S : Type 0} (services : Services S) (contract : CartContract services) where
  -- A POST with an item answers 200 with the cart that the service holds after it for the user, whose
  -- items are those before with the item put in. The cart of another user stays as it was.
  pub run-add_item :
      (req : Request AddItemRequest) (item : CartItem) (s : S) (visitor : String)
      → req.method ≡ post
      → req.body.item ≡ some item
      → visitor ≢ req.body.user_id
      → (s' : S) × (run services (cart_handler req) s ≡ (
        fulfilled
            (record { status_code = 200; body = some (cart (contract.held s' req.body.user_id)) }),
        s',
      ))
        × ((contract.held s' req.body.user_id).items
            ≡ contract.put item (contract.held s req.body.user_id).items)
        × (contract.held s' visitor ≡ contract.held s visitor)
  unfolding cart_handler
  run-add_item req item s visitor method with_item another =
      let u = req.body.user_id in
      let (s', added, now, others) = contract.adds s u item in
      (
        s',
        ap (λ m. run services (cart_switch m req) s) method
            ∙ run-waiting services (Call.add_item u req.body.item) _ s
                (ap (λ i. services (Call.add_item u i) s) with_item ∙ added)
            ∙ run-waiting services (Call.get_cart u) _ s' (contract.reads s' u)
            ∙ run-resolved services _ s',
        now,
        others visitor another,
      )

  bare_cart :
      (s : S) (u : String)
      → (contract.held s u).items ≡ []
      → contract.held s u ≡ record { user_id = (contract.held s u).user_id; items = [] }
  bare_cart s u h = λ i. record { user_id = (contract.held s u).user_id; items = h i }

  -- A DELETE answers 204, and leaves the cart of another user as it was; a GET after it, by the same
  -- user, answers 200 with no items, for the user that the service names then.
  pub run-empty_cart :
      (req later : Request AddItemRequest) (s : S) (visitor : String)
      → req.method ≡ delete
      → later.method ≡ get
      → session_of later ≡ req.body.user_id
      → visitor ≢ req.body.user_id
      → (s' : S) × (run services (cart_handler req) s
          ≡ (fulfilled (record { status_code = 204; body = some empty }), s'))
        × (run services (cart_handler later) s' ≡ (
          fulfilled (record {
            status_code = 200;
            body = some (
                product_cart
                  (record { user_id = (contract.held s' req.body.user_id).user_id; items = [] }));
          }),
          s',
        ))
        × (contract.held s' visitor ≡ contract.held s visitor)
  unfolding cart_handler
  run-empty_cart req later s visitor method method' same another =
      let u = req.body.user_id in
      let (s', emptied, none_left, others) = contract.empties s u in
      let bare = bare_cart s' u none_left in
      (
        s',
        ap (λ m. run services (cart_switch m req) s) method
            ∙ run-waiting services (Call.empty_cart u) _ s emptied
            ∙ run-resolved services _ s',
        run-get_cart services s' later
            (record { user_id = (contract.held s' u).user_id; items = [] }) [] method'
            (ap (λ v. services (Call.get_cart v) s') same
              ∙ contract.reads s' u
              ∙ ap (λ c. (response c, s')) bare)
            Forall₂.nil,
        others visitor another,
      )

-- If the service refuses an item, the POST fails with its error, and that call was the only one:
-- the cart is not read.
pub add_item_refused :
    {S : Type 0} (services : Services S) (req : Request AddItemRequest) (s s' : S) (e : Failure)
    → req.method ≡ post
    → services (Call.add_item req.body.user_id req.body.item) s ≡ (error e, s')
    → (run services (cart_handler req) s ≡ (failed e, s'))
      × (calls services (cart_handler req) s ≡ Call.add_item req.body.user_id req.body.item ∷ [])
unfolding cart_handler
add_item_refused services req s s' e method refused =
    let c = Call.add_item req.body.user_id req.body.item in
    (
      ap (λ m. run services (cart_switch m req) s) method
          ∙ run-waiting services c _ s refused
          ∙ run-rejected services e s',
      ap (λ m. calls services (cart_switch m req) s) method
          ∙ calls-waiting services c _ s refused
          ∙ ap (λ cs. c ∷ cs) (calls-rejected services Response e s'),
    )
