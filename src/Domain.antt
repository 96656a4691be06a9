-- ===== src/Domain.antt =====
-- What the handlers of src/domain/ keep beside the store.
pub mod ParkingLot
