-- ===== src/Order.antt =====
-- Orders (modules/ecommerce/order): one parent Order for the customer, one SellerOrder for each
-- seller, and the stock that both hold.
pub mod Status
pub mod Movements
pub mod Customer
pub mod Seller
