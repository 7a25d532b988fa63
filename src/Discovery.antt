-- ===== src/Discovery.antt =====
-- Discovery of other daemons over mDNS: daemon/discovery.
pub mod Txt
pub mod Identity
pub mod Instance
pub mod Label
pub mod Net
pub mod Address
pub mod Choice
pub mod Browser
pub mod Mirror
pub mod Folding
pub mod Events
pub mod Advertiser
pub mod Registration
pub mod Closing
