-- ===== src/Lib.antt =====
-- go-modaMayor, a wholesale shop for clothes: the client under front/src, a Next application in
-- TypeScript. The backend under internal and routes, in Go, is known here only by its replies.
--
-- The parts. A visitor without an account fills a cart in the storage of the browser (GuestCart,
-- for front/src/utils/guestCart.ts); at the login it is posted item by item to the server. From
-- then on the cart is the server's: front/src/hooks/useCart.ts (Cart) changes and fetches it and
-- shares it among all components that mount the hook. After each change the server's summary of
-- prices is fetched and compared with the one before, for notifications on price tiers (Summary,
-- for front/src/hooks/useCartSummary.ts; TierWatch, for useCartTierNotifications.ts; PriceQueue,
-- for front/src/components/PriceNotification.tsx), and the stock is checked (StockCheck, for
-- useCartStockCheck.ts). Pricing, for front/src/utils/priceCalculations.ts, chooses the tier that
-- a quantity reaches and computes its prices. The checkout page confirms the order (Checkout, for
-- front/src/app/checkout/page.tsx). The catalogue (Catalog, for
-- front/src/app/productos/ProductosClient.tsx) orders, filters and pages the products and keeps
-- its filters in the URL. The cart window (CartModal, for front/src/components/CartModal.tsx)
-- shows the guest's cart or the server's with its prices and totals, calls their operations and
-- asks for a seller. Login, for front/src/app/login/page.tsx, puts the guest's cart and the
-- session together; Registration is front/src/app/registro/page.tsx. The page of a seller's carts
-- (SellerCarts, for front/src/app/vendedora/carritos/page.tsx) prices items with the same tiers
-- and changes the status of carts and orders (Flow has the buttons, Status the requests); Pending
-- reserves the items whose stock is to be confirmed, Recheck looks at the confirmed ones again,
-- Choice finds and adds others, Requests changes them and ends a sale, Address is the client's,
-- and Hint names the next tier. The administrators edit the tiers with TierEditor, for
-- front/src/app/admin/configuracion/precios/page.tsx. For the administrators, Inventory is
-- front/src/app/admin/inventario/page.tsx, the stock of all products at each place; VariantsTable
-- is front/src/components/VariantsTable.tsx, where the variants of a product are changed; and
-- NewProduct is front/src/app/admin/productos/nuevo/page.tsx, the wizard that makes a product,
-- its variants and their stocks.
--
-- Auth is the session, of front/src/contexts/AuthContext.tsx, with its guards, useRequireAuth.ts
-- and front/src/components/AdminGuard.tsx, in Auth/Guard. Orders and Products are
-- front/src/utils/api.ts: the shape given to the server's orders and products, the requests for
-- them and the texts of errors; Sales is front/src/hooks/useSales.ts with the filter of
-- front/src/app/admin/ventas/page.tsx. Notices is front/src/hooks/useNotifications.ts, FocusTrap
-- is front/src/hooks/useFocusTrap.ts. A module has the definitions, its children the proofs, and
-- Tests the runs and examples; Cents is a price type for tests, Net the kinds of replies, Prelude
-- what all share.
--
-- State. A hook's useState variables, the references it keeps and the items of the storage that
-- it reads or writes are the fields of one record; the requests it sends, the messages it shows
-- and the pages it goes to are kept as lists or counts in the order in which they happen. An
-- operation is a function from such a state to the next, named as in the source but in snake
-- case: updateQuantityVariant is update_quantity_variant. An asynchronous operation is run from
-- its call to its end, with the replies to its requests as arguments: no connection, an answer
-- that is not ok, an answer that cannot be read, or one that can. Operations that overlap in time
-- are not modelled, but for the answer to a request for the profile, which may come late
-- (comes_late of Auth); sequences of them are. Where the code depends on the time, it is a number
-- of milliseconds: that of the call in Summary, and in the cart window that at which a timer is
-- due, which runs when time goes by.
--
-- Numbers. Identifiers, minimums, counts and times are natural numbers; the quantities of the two
-- carts are integers, as an update may be called with one below zero, and natural numbers where
-- they are only shown; prices are of a type with the operations that the code uses (Number),
-- about which no law is assumed, since doubles have few. A number is printed in decimal by
-- Prelude/Decimal with one more unit of fuel than the number, which is enough, since each step
-- divides it by ten. All other recursion is structural. null and undefined are both none except
-- in the properties of a guest cart's item, where JSON makes them differ.
--
-- Parameters. The JSON of a guest cart and the room in the storage (the class Store of GuestCart,
-- with its law IsJson), toLowerCase, toUpperCase, charAt(0) and slice(1) (the record Letters of
-- SellerCarts/Recheck), the length of a text, trim, Number of a text, the message of the first of
-- several requests to fail (first_of of Inventory/Load), the sum of two prices, the URL's
-- parameters (the class Params of Catalog/Url, with its laws IsParams), Number and the comparison
-- of prices (the class Money of CartModal, and less and is_nan of Catalog), JSON.parse of the
-- stored user, the focus of an element and the browser's own Tab (IsBrowser of FocusTrap/Cycle)
-- are parameters, with what is assumed of them as hypotheses of the theorems.
--
-- Not modelled: markup, styles and images, intervals and subscriptions to events, the other pages
-- of front/src/app, and the backend.
pub mod Prelude
pub mod Net
pub mod Pricing
pub mod GuestCart
pub mod Cart
pub mod PriceQueue
pub mod Summary
pub mod TierWatch
pub mod StockCheck
pub mod Auth
pub mod Orders
pub mod Sales
pub mod Notices
pub mod FocusTrap
pub mod Checkout
pub mod Products
pub mod Catalog
pub mod CartModal
pub mod Login
pub mod Registration
pub mod SellerCarts
pub mod TierEditor
pub mod Inventory
pub mod VariantsTable
pub mod NewProduct
pub mod Cents
